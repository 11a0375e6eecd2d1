-- ===== src/Attestation/Controller.antt =====
-- The class AttestationController of attestation/attestation.controller.ts. Each call of the clock
-- is an argument of its own, since a handler waits between them. The bodies are those that the
-- validation pipe lets through.
pub mod Enrolment
pub mod Binding
pub mod Outcome
use encryption_gateway.Prelude.{
  ℕ, Text, codes, List, map, Option, none, some, if◌then◌else◌, Result, ok, err, http, rejected,
  guard,
}
use encryption_gateway.Exec.{Exec, pure, raise, lift, ◌>>=◌, ◌>>◌}
use encryption_gateway.Runtime.{Bytes, num, Runtime}
use encryption_gateway.Kv.{KvStore}
use encryption_gateway.Attestation.Crypto.{Crypto}
use encryption_gateway.Attestation.Challenges.{issue, consume}
use encryption_gateway.Attestation.Devices
use encryption_gateway.Attestation.Devices.{EnrolledDevice, enrol}
use encryption_gateway.Attestation.Chain.{AttestationPolicy, Attested, verify, verify_signature}

pub record EnrollDevice : Type 0 where
  pub challenge_id : Text
  pub device_id : Text
  pub certificate_chain : List Text

pub record VerifyDevice : Type 0 where
  pub challenge_id : Text
  pub device_id : Text
  pub signature : Text

-- body?.purpose ?? 'enroll'
abbrev pub purpose_or_enroll : Option Text → Text
purpose_or_enroll none = codes "enroll"
purpose_or_enroll (some purpose) = purpose

-- The `catch` around the check of a chain.
abbrev pub forbidden_of_rejected {ℓ} : {A : Type ℓ} → Result A → Result A
forbidden_of_rejected (ok a) = ok a
forbidden_of_rejected (err (rejected code)) = err (http 403 code)
forbidden_of_rejected (err e) = err e

module _ (R : Runtime) (C : Crypto) (kv : KvStore) (lower : Text → Text)
    (P : AttestationPolicy) where
  open R use {Num, number, date_at, from_base64}
  open C use {Key}

  unfoldable pub assert_configured : Result (Unit {0})
  assert_configured = guard P.configured (http 503 "ATTESTATION_NOT_CONFIGURED")

  unfoldable pub challenge : ℕ → Text → Bytes → Option Text → Exec kv.State (Text × Bytes)
  challenge now challenge_id nonce purpose =
      issue R kv now challenge_id nonce (purpose_or_enroll purpose)

  -- What is stored for an attested key.
  abbrev pub device_of : ℕ → Attested lower C P → EnrolledDevice R C
  device_of now a = record {
    public_key = a.public_key;
    security_level = some (num (number a.security_level));
    enrolled_at = date_at now;
  }

  -- The end of `enroll`: from the attested key to the reply, a security level.
  unfoldable pub bind_key : ℕ → Text → Attested lower C P → Exec kv.State ℕ
  bind_key now device_id a = do
    enrolled ← enrol R C kv now device_id (device_of now a)
    if enrolled then pure a.security_level else raise (http 409 "DEVICE_ALREADY_ENROLLED")

  unfoldable pub attest : ℕ → ℕ → Text → List Text → Option Bytes → Exec kv.State ℕ
  attest now2 now3 device_id certificates none = raise (http 401 "unknown or expired challenge")
  attest now2 now3 device_id certificates (some nonce) = do
    a ← lift (forbidden_of_rejected (verify lower C P now2 (map from_base64 certificates) nonce))
    bind_key now3 device_id a

  unfoldable pub enroll : ℕ → ℕ → ℕ → EnrollDevice → Exec kv.State ℕ
  enroll now1 now2 now3 body = do
    lift assert_configured
    nonce ← consume R kv now1 body.challenge_id (codes "enroll")
    attest now2 now3 body.device_id body.certificate_chain nonce

  unfoldable pub check_signature :
      Option Bytes → Option (EnrolledDevice R C) → Text → Result (Unit {0})
  check_signature (some nonce) (some device) signature =
      guard (verify_signature lower C P device.public_key nonce (from_base64 signature))
        (http 401 "invalid signature")
  check_signature _ _ signature = err (http 401 "unknown challenge or device")

  unfoldable pub verify_device : ℕ → ℕ → VerifyDevice → Exec kv.State (Unit {0})
  verify_device now1 now2 body = do
    lift assert_configured
    nonce ← consume R kv now1 body.challenge_id (codes "verify")
    device ← Devices.get R C kv now2 body.device_id
    lift (check_signature nonce device body.signature)
