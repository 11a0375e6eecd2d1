-- ===== src/Attestation/Module.antt =====
-- The factories of attestation/attestation.module.ts. The environment of the process is a second
-- configuration; the keys of Google's root certificates are an argument. A set of strings is a
-- list, of which only members and emptiness are read. What is logged is left out.
pub mod Production
pub mod Identity
use encryption_gateway.Prelude.{
  ◌==◌, Text, codes, text_eq, List, [], ◌∷◌, map, filter, length, all, Option, none, some, Bool,
  true, false, not, ◌&&◌, ◌||◌, if◌then◌else◌, leb, Result, ok, err, crash, guard, ◌>>=◌, ◌>>◌,
}
use encryption_gateway.JsText.{is_given, split_on, trim}
use encryption_gateway.Runtime.{Bytes}
use encryption_gateway.Config.{Config, strict_boolean, enum_value}
use encryption_gateway.Kv.Memory.{MemoryKvStore, empty}
use encryption_gateway.Attestation.Crypto.{software, trusted_environment}
use encryption_gateway.Attestation.Chain.{AttestationPolicy, strip_zeros}
use encryption_gateway.Attestation.DeviceGuard.{DevicePolicy, report, required}

-- value.replace(/:/g, '')
abbrev pub without_colons : Text → Text
without_colons s = filter (λ c. not (c == b':')) s

-- left || right of values that may be undefined
abbrev pub or_else : Option Text → Option Text → Option Text
or_else none r = r
or_else (some []) r = r
or_else (some (c ∷ s)) r = some (c ∷ s)

-- value || ''
abbrev pub or_empty : Option Text → Text
or_empty none = []
or_empty (some t) = t

-- /^[0-9a-f]{64}$/
unfoldable pub is_sha256 : Text → Bool
is_sha256 t =
    length t == 64 && all (λ c. (leb b'0' c && leb c b'9') || (leb b'a' c && leb c b'f')) t

unfoldable pub check_digests : List Text → Result (Unit {0})
check_digests [] = ok tt
check_digests (digest ∷ digests) = do
  guard (is_sha256 digest) (crash "ATTESTATION_SIGNING_CERT_SHA256 must be SHA-256 hex digests")
  check_digests digests

abbrev pub is_empty : List Text → Bool
is_empty [] = true
is_empty (x ∷ xs) = false

module _ (lower : Text → Text) (google_root_keys : List Bytes) (env : Config) where
  unfoldable pub hex_set : Text → List Text
  hex_set raw = filter is_given (map (λ v. lower (trim (without_colons v))) (split_on b',' raw))

  unfoldable pub serial_set : Text → List Text
  serial_set raw =
      filter is_given (map (λ v. strip_zeros (lower (trim (without_colons v)))) (split_on b',' raw))

  unfoldable pub is_production : Config → Bool
  is_production config =
      text_eq (or_empty (or_else (config "NODE_ENV") (env "NODE_ENV"))) (codes "production")

  abbrev pub package_of : Config → Text
  package_of config =
      trim (or_empty (or_else (config "ATTESTATION_PACKAGE_NAME") (config "AEGIS_PACKAGE_NAME")))

  abbrev pub digests_of : Config → List Text
  digests_of config = hex_set (
      or_empty
        (or_else (config "ATTESTATION_SIGNING_CERT_SHA256") (config "AEGIS_SIGNING_CERT_SHA256")))

  abbrev pub serials_of : Config → List Text
  serials_of config =
      serial_set
        (or_empty (or_else (config "ATTESTATION_REVOKED_SERIALS") (config "AEGIS_REVOKED_SERIALS")))

  -- The second switch is read only where the first is off.
  unfoldable pub emulator_mode : Config → Bool → Result Bool
  emulator_mode config true = ok true
  emulator_mode config false = strict_boolean config "AEGIS_EMULATOR_MODE" false

  -- The policy itself, from the checked values.
  abbrev pub policy_of : Config → Bool → AttestationPolicy
  policy_of config allow_software = record {
    configured = is_given (package_of config) && not (is_empty (digests_of config));
    trusted_root_public_keys = if allow_software then none else some google_root_keys;
    package_name = package_of config;
    signing_cert_digests = digests_of config;
    min_security_level = if allow_software then software else trusted_environment;
    require_verified_boot = not allow_software;
    revoked_serials = serials_of config;
  }

  unfoldable pub policy_from_config : Config → Result AttestationPolicy
  policy_from_config config = do
    attestation_mode ← strict_boolean config "ATTESTATION_ALLOW_SOFTWARE" false
    allow_software ← emulator_mode config attestation_mode
    guard (not (allow_software && is_production config))
        (crash "ATTESTATION_ALLOW_SOFTWARE must not be true when NODE_ENV=production")
    check_digests (digests_of config)
    guard
        (not (
          not (is_given (package_of config) && not (is_empty (digests_of config)))
          && (is_given (package_of config) || not (is_empty (digests_of config)))))
        (crash "both must be set, or both be empty")
    ok (policy_of config allow_software)

  abbrev pub disabled_policy : AttestationPolicy
  disabled_policy = record {
    configured = false;
    trusted_root_public_keys = some [];
    package_name = [];
    signing_cert_digests = [];
    min_security_level = trusted_environment;
    require_verified_boot = true;
    revoked_serials = [];
  }

  -- The `catch` around a factory.
  abbrev pub policy_or_disabled : Result AttestationPolicy → AttestationPolicy
  policy_or_disabled (ok policy) = policy
  policy_or_disabled (err e) = disabled_policy

  unfoldable pub safe_policy_from_config : Config → AttestationPolicy
  safe_policy_from_config config = policy_or_disabled (policy_from_config config)

-- left ?? right
abbrev pub is_set : Option Text → Bool
is_set none = false
is_set (some t) = true

-- `enum_value` returns one of the two names.
abbrev pub device_policy_of : Result Text → Result DevicePolicy
device_policy_of (err e) = err e
device_policy_of (ok name) = ok (if text_eq name (codes "report") then report else required)

unfoldable pub device_policy_from_config : Config → Result DevicePolicy
device_policy_from_config config =
    let allowed = codes "required" ∷ codes "report" ∷ [] in
    if is_set (config "ATTESTATION_DEVICE_POLICY")
    then device_policy_of (enum_value config "ATTESTATION_DEVICE_POLICY" allowed (codes "required"))
    else if is_set (config "AEGIS_DEVICE_POLICY")
    then device_policy_of (enum_value config "AEGIS_DEVICE_POLICY" allowed (codes "required"))
    else ok required

-- Which store is made, with its arguments.
pub data StoreChoice : Type 0 where
  upstash : (url token : Text) → StoreChoice
  memory : MemoryKvStore → StoreChoice

abbrev pub url_of : Config → Text
url_of config =
    trim (or_empty (or_else (config "ATTESTATION_KV_REST_URL") (config "AEGIS_KV_REST_URL")))

abbrev pub token_of : Config → Text
token_of config =
    trim (or_empty (or_else (config "ATTESTATION_KV_REST_TOKEN") (config "AEGIS_KV_REST_TOKEN")))

unfoldable pub kv_store_from_config : Config → Result StoreChoice
kv_store_from_config config =
    if is_given (url_of config) && is_given (token_of config)
    then ok (upstash (url_of config) (token_of config))
    else if is_given (url_of config) || is_given (token_of config)
    then err (crash "both must be set, or both be empty")
    else ok (memory (empty 10000))

abbrev pub store_or_memory : Result StoreChoice → StoreChoice
store_or_memory (ok store) = store
store_or_memory (err e) = memory (empty 10000)

unfoldable pub safe_kv_store_from_config : Config → StoreChoice
safe_kv_store_from_config config = store_or_memory (kv_store_from_config config)
