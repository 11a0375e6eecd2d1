-- ===== src/Tests/Startup.antt =====
-- Configurations: what the services are made of, and what they do from their start on.
use encryption_gateway.Prelude.{
  Text, codes, text_eq, List, [], ◌∷◌, replicate, All, none, some, true, false, if◌then◌else◌, ◌≡◌,
  ◌≢◌, refl, ok,
}
use encryption_gateway.JsText.{split_on, trim, trim_start, includes_text, starts_with}
use encryption_gateway.Runtime.{Bytes}
use encryption_gateway.Config.{Config, is_unset, positive_integer, strict_boolean}
use encryption_gateway.RateLimit.{RateLimit}
use encryption_gateway.RateLimit.Setup.{rate_limit, after_all, IsRunning, after_all-rate_limit}
use encryption_gateway.TargetPolicy.{target_policy, split_list, parse_entries}
use encryption_gateway.Proxy.Service.{ProxyService, forward}
use encryption_gateway.Proxy.Service.Setup.{proxy_service, forward-unset}
use encryption_gateway.Encryption.{ServerKey}
use encryption_gateway.Encryption.Keys.{
  KeyTools, start, auto_generate_keys, load_private_keys, load_pems, inline_pems, some_keys,
  check_keys, check_key, describe_key, unescape_newlines,
}
use encryption_gateway.Encryption.Keys.Strong.{IsServerKey, start-IsServerKey}
use encryption_gateway.Attestation.Crypto.{Crypto}
use encryption_gateway.Attestation.Chain.{
  verify, verify_chain, parse_all, check_signatures, check_root, check_validity, check_revoked,
  check_leaf, read_description, find_extension, check_description, check_boot, check_application,
  check_digests, strip_zeros,
}
use encryption_gateway.Attestation.Module
use encryption_gateway.Attestation.Module.{safe_policy_from_config}
use encryption_gateway.Attestation.Module.Production.{IsHardwareBacked, verify-IsHardwareBacked}
use encryption_gateway.Tests.Toys.{same, toy_runtime, toy_crypto, leaf_der, root_der}
use encryption_gateway.Tests.Gateway.{toy_cipher, toy_parse_url, a_payload, toy_client}

abbrev empty_config : Config
empty_config name = none

abbrev the_default : RateLimit
the_default = record {
  ttl_ms = 60000;
  limit = 60;
  max_entries = 10000;
  hits = [];
  next_sweep_at = 0;
}

after_all-rate_limit_example :
    IsRunning empty_config (after_all ((codes "u", 5) ∷ (codes "v", 6) ∷ []) the_default)
unfolding rate_limit positive_integer is_unset
after_all-rate_limit_example =
    after_all-rate_limit empty_config the_default ((codes "u", 5) ∷ (codes "v", 6) ∷ []) refl

abbrev closed_service : ProxyService toy_runtime
closed_service = record {
  rules = [];
  allow_http = false;
  timeout_ms = 15000;
  max_response_bytes = 5242880;
}

forward-unset_example :
    (forward toy_runtime same same
      (λ t. some t)
      toy_parse_url
      closed_service
      toy_client
      a_payload
      []).1
    ≡ []
unfolding proxy_service target_policy split_list parse_entries positive_integer strict_boolean
    is_unset split_on trim trim_start
forward-unset_example =
    forward-unset toy_runtime same same (λ t. some t) toy_parse_url empty_config closed_service
      toy_client a_payload [] refl refl refl

abbrev a_digest : Text
a_digest = replicate 64 97

-- Production, with the identity of an app.
abbrev a_config : Config
a_config name =
    if text_eq (codes name) (codes "NODE_ENV")
    then some (codes "production")
    else if text_eq (codes name) (codes "ATTESTATION_PACKAGE_NAME")
    then some (codes "app")
    else if text_eq (codes name) (codes "ATTESTATION_SIGNING_CERT_SHA256")
    then some a_digest
    else if text_eq (codes name) (codes "RSA_PRIVATE_KEY")
    then some (codes "-----BEGIN")
    else none

abbrev some_roots : List Bytes
some_roots = (9 ∷ []) ∷ []

-- Certificates of the app that the configuration names.
abbrev app_crypto : Crypto
app_crypto = record toy_crypto {
  application_id = λ octets.
      some (record { package_names = codes "app" ∷ []; signature_digests = a_digest ∷ [] });
}

the_policy-accepts :
    verify same app_crypto
      (safe_policy_from_config same some_roots empty_config a_config)
      21
      (leaf_der ∷ root_der ∷ [])
      (7 ∷ [])
    ≡ ok (record { public_key = 5; security_level = 1 })
unfolding verify verify_chain parse_all check_signatures check_root check_validity check_revoked
    check_leaf read_description find_extension check_description check_boot check_application
    check_digests strip_zeros text_eq safe_policy_from_config Module.policy_from_config
    strict_boolean is_unset Module.emulator_mode Module.check_digests Module.hex_set split_on trim
    Module.is_sha256 Module.serial_set
the_policy-accepts = refl

verify-IsHardwareBacked_example :
    IsHardwareBacked same some_roots empty_config app_crypto
      (safe_policy_from_config same some_roots empty_config a_config)
      21
      (leaf_der ∷ root_der ∷ [])
      (7 ∷ [])
      (record { public_key = 5; security_level = 1 })
unfolding Module.is_production text_eq
verify-IsHardwareBacked_example =
    verify-IsHardwareBacked same some_roots empty_config app_crypto a_config 21
      (leaf_der ∷ root_der ∷ []) (7 ∷ []) (record { public_key = 5; security_level = 1 }) refl
      the_policy-accepts

-- Every text is the key 7, of 2048 bits.
abbrev toy_tools : KeyTools toy_cipher
toy_tools = record {
  create_private_key = λ pem. some 7;
  is_rsa = λ k. true;
  modulus_length = λ k. some 2048;
  spki_der = λ k. k ∷ [];
  spki_pem = λ k. k ∷ [];
  pkcs1_der = λ k. k ∷ [];
  sha256_hex = λ b. b;
  exists = λ p. false;
  read_file = λ p. none;
  resolve = λ p. p;
  default_private = codes "private";
  default_public = codes "public";
  generated_private = [];
  generated_public = [];
}

abbrev its_keys : List (ServerKey toy_runtime toy_cipher)
its_keys = describe_key toy_runtime toy_cipher toy_tools 7 ∷ []

start-IsServerKey_example :
    (its_keys ≢ []) × All (IsServerKey toy_runtime toy_cipher toy_tools) its_keys
unfolding start auto_generate_keys load_private_keys load_pems inline_pems some_keys check_keys
    check_key unescape_newlines is_unset strict_boolean text_eq trim trim_start includes_text
    starts_with
start-IsServerKey_example =
    start-IsServerKey toy_runtime toy_cipher toy_tools empty_config a_config [] its_keys refl
