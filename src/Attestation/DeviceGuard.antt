-- ===== src/Attestation/DeviceGuard.antt =====
-- The class DeviceSignatureGuard of attestation/device-signature.guard.ts. The purpose is the
-- metadata of the guarded handler.
pub mod Verified
pub mod Admitted
use encryption_gateway.Prelude.{
  ℕ, Text, [], ◌∷◌, Option, none, some, Bool, true, false, if◌then◌else◌, Result, ok, err, http,
  ◌&&◌, not, String,
}
use encryption_gateway.Exec.{Exec, pure, lift, ◌>>=◌, ◌>>◌}
use encryption_gateway.Runtime.{Bytes, Runtime}
use encryption_gateway.Kv.{KvStore}
use encryption_gateway.Attestation.Crypto.{Crypto}
use encryption_gateway.Attestation.Challenges.{consume}
use encryption_gateway.Attestation.Devices
use encryption_gateway.Attestation.Devices.{EnrolledDevice}
use encryption_gateway.Attestation.Chain.{AttestationPolicy, verify_signature}

pub data DevicePolicy : Type 0 where
  report required : DevicePolicy

pub data Reason : Type 0 where
  device_signature_missing : Reason
  device_challenge_invalid : Reason
  device_not_enrolled : Reason
  device_signature_invalid : Reason

pub record DeviceContext : Type 0 where
  pub is_verified : Bool
  pub device_id : Option Text
  pub reason : Option Reason

-- The three headers that the guard reads.
pub record DeviceHeaders : Type 0 where
  pub x_device_id : Option Text
  pub x_device_challenge_id : Option Text
  pub x_device_signature : Option Text

abbrev pub refuse : Option Text → Reason → DeviceContext
refuse device_id reason = record {
  is_verified = false;
  device_id = device_id;
  reason = some reason;
}

module _ (R : Runtime) (C : Crypto) (kv : KvStore) (lower : Text → Text)
    (P : AttestationPolicy) where
  open R use {from_base64}

  unfoldable pub check_enrolled : Text → Bytes → Text → Option (EnrolledDevice R C) → DeviceContext
  check_enrolled device_id nonce signature none = refuse (some device_id) device_not_enrolled
  check_enrolled device_id nonce signature (some enrolled) =
      if verify_signature lower C P enrolled.public_key nonce (from_base64 signature)
      then record { is_verified = true; device_id = some device_id; reason = none }
      else refuse (some device_id) device_signature_invalid

  unfoldable pub check_nonce : ℕ → Text → Text → Option Bytes → Exec kv.State DeviceContext
  check_nonce now device_id signature none = pure (refuse (some device_id) device_challenge_invalid)
  check_nonce now device_id signature (some nonce) = do
    enrolled ← Devices.get R C kv now device_id
    pure (check_enrolled device_id nonce signature enrolled)

  -- A header that is undefined or empty is missing.
  unfoldable pub check : ℕ → ℕ → DeviceHeaders → Text → Exec kv.State DeviceContext
  check now1 now2 headers purpose = elim headers.x_device_id [
    | none ↦ pure (refuse none device_signature_missing)
    | some [] ↦ pure (refuse none device_signature_missing)
    | some (d ∷ ds) ↦ elim headers.x_device_challenge_id [
      | none ↦ pure (refuse none device_signature_missing)
      | some [] ↦ pure (refuse none device_signature_missing)
      | some (c ∷ cs) ↦ elim headers.x_device_signature [
        | none ↦ pure (refuse none device_signature_missing)
        | some [] ↦ pure (refuse none device_signature_missing)
        | some (g ∷ gs) ↦ do
          nonce ← consume R kv now1 (c ∷ cs) purpose
          check_nonce now2 (d ∷ ds) (g ∷ gs) nonce
      ]
    ]
  ]

  -- What is attached to the request, or the exception with the reason as its code.
  abbrev pub code_of : Option Reason → String
  code_of none = ""
  code_of (some device_signature_missing) = "DEVICE_SIGNATURE_MISSING"
  code_of (some device_challenge_invalid) = "DEVICE_CHALLENGE_INVALID"
  code_of (some device_not_enrolled) = "DEVICE_NOT_ENROLLED"
  code_of (some device_signature_invalid) = "DEVICE_SIGNATURE_INVALID"

  abbrev pub is_required : DevicePolicy → Bool
  is_required report = false
  is_required required = true

  unfoldable pub admit : DevicePolicy → DeviceContext → Result DeviceContext
  admit policy device =
      if not device.is_verified && is_required policy
      then err (http 401 (code_of device.reason))
      else ok device

  unfoldable pub can_activate :
      ℕ → ℕ → DevicePolicy → DeviceHeaders → Text → Exec kv.State DeviceContext
  can_activate now1 now2 policy headers purpose = do
    device ← check now1 now2 headers purpose
    lift (admit policy device)
