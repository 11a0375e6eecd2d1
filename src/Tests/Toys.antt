-- ===== src/Tests/Toys.antt =====
-- Small instances of what the program takes from Node.js and the @peculiar packages: a JSON format
-- that holds one challenge or one device, keys that are numbers, certificates of three bytes (key,
-- signer, serial number).
use encryption_gateway.Prelude.{
  ℕ, ◌*◌, ◌-◌, Text, codes, text_eq, [], ◌∷◌, Option, none, some, true, if◌then◌else◌, ◌==◌, ltb,
  length, ◌+◌,
}
use encryption_gateway.Runtime.{Bytes, Json, num, str, obj, end, field, Runtime}
use encryption_gateway.Attestation.Crypto.{Crypto, KeyDescription, ApplicationId}
use encryption_gateway.Attestation.Chain.{AttestationPolicy}
use encryption_gateway.Replay.{Times}

abbrev pub same : Text → Text
same t = t

-- 1, the byte of the nonce and the purpose, or 2, the key, the level and the date.
abbrev toy_stringify : Json ℕ → Text
toy_stringify (obj (field n (str (a ∷ [])) (field p (str b) end))) = 1 ∷ a ∷ b
toy_stringify (obj (field s (str (a ∷ [])) (field l (num n) (field d (str (t ∷ [])) end)))) =
    2 ∷ a ∷ n ∷ t ∷ []
toy_stringify _ = []

abbrev parse_device : Text → Option (Json ℕ)
parse_device (a ∷ n ∷ t ∷ []) = some (
    obj (
      field (codes "spki") (str (a ∷ []))
        (field (codes "securityLevel") (num n) (field (codes "enrolledAt") (str (t ∷ [])) end))))
parse_device _ = none

abbrev parse_challenge : Text → Option (Json ℕ)
parse_challenge (a ∷ b) =
    some (obj (field (codes "nonce") (str (a ∷ [])) (field (codes "purpose") (str b) end)))
parse_challenge _ = none

abbrev toy_parse : Text → Option (Json ℕ)
toy_parse [] = none
toy_parse (c ∷ t) =
    if c == 1
    then parse_challenge t
    else if c == 2
    then parse_device t
    else some (obj (field (codes "AccessPoint") (str t) end))

abbrev toy_date_of : Option (Json ℕ) → ℕ
toy_date_of (some (str (t ∷ []))) = t
toy_date_of _ = 0

abbrev pub toy_runtime : Runtime
toy_runtime = record {
  Num = ℕ;
  number = λ n. n;
  number_text = λ n. n ∷ [];
  object_text = λ v. codes "[object Object]";
  parse = toy_parse;
  stringify = toy_stringify;
  to_base64 = λ b. b;
  from_base64 = λ t. t;
  utf8 = λ t. t;
  buffer_of = λ v. none;
  Date = ℕ;
  date_at = λ now. now;
  date_of = toy_date_of;
  iso = λ d. d ∷ [];
}

abbrev pub byte : ℕ → Bytes → ℕ
byte i [] = 0
byte i (b ∷ bs) = if i == 0 then b else byte (i - 1) bs

abbrev pub toy_description : KeyDescription
toy_description = record {
  attestation_challenge = 7 ∷ [];
  attestation_security_level = 2;
  keymaster_security_level = 1;
  root_of_trust = some (record { device_locked = true; verified_boot_state = 0 });
  tee_application_id = some [];
  software_application_id = none;
}

abbrev toy_app : ApplicationId
toy_app = record { package_names = codes "app" ∷ []; signature_digests = codes "d1" ∷ [] }

abbrev toy_key : Bytes → Option ℕ
toy_key (k ∷ []) = some k
toy_key _ = none

abbrev pub toy_crypto : Crypto
toy_crypto = record {
  Key = ℕ;
  Cert = Bytes;
  export_spki = λ k. k ∷ [];
  create_public_key = toy_key;
  verify = λ payload k signature. some (text_eq signature (k ∷ payload));
  certificate = λ der. if length der == 3 then some der else none;
  public_key = λ c. some (byte 0 c);
  is_signed_by = λ c k. some (byte 1 c == k);
  serial_number = λ c. byte 2 c ∷ [];
  valid_from = λ c. some 0;
  valid_to = λ c. some 1000000;
  extensions = λ der. some (some ((codes "1.3.6.1.4.1.11129.2.1.17", der) ∷ []));
  key_description = λ value. some toy_description;
  application_id = λ octets. some toy_app;
  key_description_id = codes "1.3.6.1.4.1.11129.2.1.17";
  utf8_text = λ b. b;
  hex = λ b. b;
}

abbrev pub toy_policy : AttestationPolicy
toy_policy = record {
  configured = true;
  trusted_root_public_keys = some ((9 ∷ []) ∷ []);
  package_name = codes "app";
  signing_cert_digests = codes "d1" ∷ [];
  min_security_level = 1;
  require_verified_boot = true;
  revoked_serials = codes "e" ∷ [];
}

abbrev pub leaf_der : Bytes
leaf_der = 5 ∷ 9 ∷ 33 ∷ []

abbrev pub root_der : Bytes
root_der = 9 ∷ 9 ∷ 34 ∷ []

-- Milliseconds as natural numbers; a text is no date, and a difference is
-- kept without its sign.
abbrev pub toy_times : Times ℕ
toy_times = record {
  is_finite = λ n. true;
  is_safe_integer = λ n. true;
  is_seconds = λ n. ltb n 1000000000000;
  times_1000 = λ n. n * 1000;
  number_of = λ t. 0;
  date_parse = λ t. none;
  minus = λ now t. (now - t) + (t - now);
  abs = λ n. n;
  exceeds = λ n skew. ltb skew n;
}
