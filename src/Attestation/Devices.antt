-- ===== src/Attestation/Devices.antt =====
-- The class DeviceRegistry of attestation/device.registry.ts.
pub mod Codec
pub mod Evicted
use encryption_gateway.Prelude.{
  ℕ, Text, codes, [], ◌++◌, Option, none, some, Bool, true, false, if◌then◌else◌, ok, err,
}
use encryption_gateway.Exec.{Exec, pure, ◌>>=◌, ◌>>◌}
use encryption_gateway.Runtime.{Json, str, obj, Fields, end, field, Runtime}
use encryption_gateway.Kv.{KvStore}
use encryption_gateway.Attestation.Crypto.{Crypto}
use encryption_gateway.Attestation.Challenges.{property, is_missing, text_or, buffer_from}

unfoldable pub key : Text → Text
key device_id = codes "attestation:device:" ++ device_id

-- raw !== null
abbrev pub is_there : Option Text → Bool
is_there none = false
is_there (some _) = true

module _ (R : Runtime) (C : Crypto) where
  open R use {Num, Date, parse, stringify, to_base64, from_base64, date_of, iso}
  open C use {Key, export_spki, create_public_key}

  -- A level that is read back from the store is whatever value stands there.
  pub record EnrolledDevice : Type 0 where
    pub public_key : Key
    pub security_level : Option (Json Num)
    pub enrolled_at : Date

  -- JSON.stringify leaves an undefined property out
  abbrev level_field : Option (Json Num) → Fields Num → Fields Num
  level_field none rest = rest
  level_field (some level) rest = field (codes "securityLevel") level rest

  abbrev pub encode : EnrolledDevice → Json Num
  encode device = obj (
      field (codes "spki") (str (to_base64 (export_spki device.public_key))) (
        level_field device.security_level
          (field (codes "enrolledAt") (str (iso device.enrolled_at)) end)))

  -- The `try` block: every throw becomes undefined.
  unfoldable pub decode : Json Num → Option EnrolledDevice
  unfolding buffer_from
  decode stored = elim (property (codes "spki") stored) [
    | err e ↦ none
    | ok spki ↦ elim (buffer_from R from_base64 spki) [
      | err e ↦ none
      | ok der ↦ elim (create_public_key der) [
        | none ↦ none
        | some public_key ↦ elim (property (codes "securityLevel") stored) [
          | err e ↦ none
          | ok level ↦ elim (property (codes "enrolledAt") stored) [
            | err e ↦ none
            | ok at ↦ some (record {
              public_key = public_key;
              security_level = level;
              enrolled_at = date_of at;
            })
          ]
        ]
      ]
    ]
  ]

  unfoldable pub read_device : Option Text → Option EnrolledDevice
  unfolding decode
  read_device raw =
      if is_missing raw
      then none
      else elim (parse (text_or raw [])) [ none ↦ none | some stored ↦ decode stored ]

  module _ (kv : KvStore) where
    unfoldable pub get : ℕ → Text → Exec kv.State (Option EnrolledDevice)
    get now device_id = do raw ← (λ s. kv.get now (key device_id) s); pure (read_device raw)

    unfoldable pub enrol : ℕ → Text → EnrolledDevice → Exec kv.State Bool
    enrol now device_id device s =
        kv.set_if_absent now (key device_id) (stringify (encode device)) none s

    unfoldable pub has : ℕ → Text → Exec kv.State Bool
    has now device_id = do raw ← (λ s. kv.get now (key device_id) s); pure (is_there raw)

    unfoldable pub delete : ℕ → Text → Exec kv.State Bool
    delete now device_id s = kv.delete now (key device_id) s
