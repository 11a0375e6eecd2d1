-- ===== src/Encryption/Keys.antt =====
-- The keys of EncryptionService: its constructor, loadPrivateKeys, describeKey, onModuleInit and
-- getPublicKeyInfo, and encryption/public-key.controller.ts, which returns what the last one does.
-- The files, the parser of PEM and the operations on keys are parameters. The state is the list of
-- the files that were written, the latest first; a write does not fail. Where a message names the
-- source of a key, it is left out.

pub mod Strong
use encryption_gateway.Prelude.{
  ℕ, ◌==◌, Text, codes, text_eq, List, [], ◌∷◌, ◌++◌, map, filter, take, Option, none, some, Bool,
  true, not, ◌&&◌, ◌||◌, if◌then◌else◌, ltb, Result, ok, err, crash,
}
use encryption_gateway.Exec.{Exec, pure, lift, ◌>>=◌, ◌>>◌}
use encryption_gateway.JsText.{is_given, split_on, trim, includes_text, to_decimal}
use encryption_gateway.Runtime.{Bytes, Runtime}
use encryption_gateway.Config.{Config, strict_boolean, text_of}
use encryption_gateway.Encryption.{Cipher, KeyInfo, ServerKey}

abbrev pub min_key_bits : ℕ
min_key_bits = 2048

-- What the service takes from node:crypto, node:fs and node:path; `none` means that a call throws.
pub record KeyTools (C : Cipher) : Type 0 where
  pub create_private_key : Text → Option C.PrivateKey
  pub is_rsa : C.PrivateKey → Bool
  -- asymmetricKeyDetails?.modulusLength
  pub modulus_length : C.PrivateKey → Option ℕ
  -- the forms of the public key
  pub spki_der : C.PrivateKey → Bytes
  pub spki_pem : C.PrivateKey → Text
  pub pkcs1_der : C.PrivateKey → Bytes
  -- sha256 in hexadecimal
  pub sha256_hex : Bytes → Text
  -- fs.existsSync, and fs.readFileSync as UTF-8
  pub exists : Text → Bool
  pub read_file : Text → Option Text
  -- path.resolve(process.cwd(), p), and the two files of the directory keys
  pub resolve : Text → Text
  pub default_private : Text
  pub default_public : Text
  -- the PEM texts of a fresh key pair
  pub generated_private : Text
  pub generated_public : Text

-- text.replace(/\\n/g, '\n'): a backslash and an n become a line break
unfoldable pub unescape_newlines : Text → Text
unescape_newlines [] = []
unescape_newlines (c ∷ []) = c ∷ []
unescape_newlines (c ∷ d ∷ s) =
    let after = unescape_newlines s in
    let later = unescape_newlines (d ∷ s) in if c == 92 && d == b'n' then 10 ∷ after else c ∷ later

abbrev pub Files : Type 0
Files = List (Text × Text)

-- left ?? right
abbrev pub or_else : Option Text → Option Text → Option Text
or_else none r = r
or_else (some t) r = some t

module _ (R : Runtime) (C : Cipher) (K : KeyTools C) where
  open R use {to_base64, from_base64}
  open C use {PrivateKey, utf8_text}
  open K use {
    create_private_key, is_rsa, modulus_length, spki_der, spki_pem, pkcs1_der, sha256_hex, exists,
    read_file, resolve, default_private, default_public, generated_private, generated_public,
  }

  unfoldable pub key_id_of : Bytes → Text
  key_id_of spki = take 16 (sha256_hex spki)

  -- environment !== 'production' && environment !== 'test' for a value that may be undefined
  abbrev pub is_development : Option Text → Bool
  is_development none = true
  is_development (some e) = not (text_eq e (codes "production")) && not (text_eq e (codes "test"))

  unfoldable pub auto_generate_keys : Config → Config → Result Bool
  auto_generate_keys env config =
      strict_boolean config "AUTO_GENERATE_KEYS"
        (is_development (or_else (config "NODE_ENV") (env "NODE_ENV")))

  abbrev pub entries_of : Text → List Text
  entries_of raw = filter is_given (map trim (split_on b',' raw))

  unfoldable pub inline_pems : Text → List Text
  inline_pems inline =
      if includes_text inline (codes "-----BEGIN")
      then unescape_newlines inline ∷ []
      else map (λ v. utf8_text (from_base64 v)) (entries_of inline)

  unfoldable pub read_files : List Text → Result (List Text)
  read_files [] = ok []
  read_files (p ∷ ps) = elim (read_file (resolve p)) [
    | none ↦ err (crash "Cannot read")
    | some pem ↦ elim (read_files ps) [ err e ↦ err e | ok pems ↦ ok (pem ∷ pems) ]
  ]

  -- The directory keys, where neither variable is set.
  unfoldable pub default_pems : Bool → Exec Files (List Text)
  default_pems auto_generate files =
      if exists default_private
      then (elim (read_file default_private) [
        | none ↦ (err (crash "Error"), files)
        | some pem ↦ (ok (pem ∷ []), files)
      ])
      else if auto_generate
      then (
        ok (generated_private ∷ []),
        (default_public, generated_public) ∷ (default_private, generated_private) ∷ files,
      )
      else (ok [], files)

  unfoldable pub load_pems : Bool → Config → Exec Files (List Text)
  load_pems auto_generate config files =
      if is_given (trim (text_of (config "RSA_PRIVATE_KEY")))
      then (ok (inline_pems (trim (text_of (config "RSA_PRIVATE_KEY")))), files)
      else if is_given (trim (text_of (config "RSA_PRIVATE_KEY_PATH")))
      then (read_files (entries_of (trim (text_of (config "RSA_PRIVATE_KEY_PATH")))), files)
      else default_pems auto_generate files

  -- modulusLength ?? 0
  abbrev pub bits_of : Option ℕ → ℕ
  bits_of none = 0
  bits_of (some bits) = bits

  unfoldable pub check_key : Text → Result PrivateKey
  check_key pem = elim (create_private_key pem) [
    | none ↦ err (crash "is not a valid PEM private key")
    | some key ↦
        if not (is_rsa key) || ltb (bits_of (modulus_length key)) min_key_bits
        then err (crash "must be an RSA key >= 2048 bits")
        else ok key
  ]

  unfoldable pub check_keys : List Text → Result (List PrivateKey)
  check_keys [] = ok []
  check_keys (pem ∷ pems) = elim (check_key pem) [
    | err e ↦ err e
    | ok key ↦ elim (check_keys pems) [ err e ↦ err e | ok keys ↦ ok (key ∷ keys) ]
  ]

  unfoldable pub some_keys : List Text → Result (List PrivateKey)
  some_keys [] = err (crash "No server key configured")
  some_keys (pem ∷ pems) = check_keys (pem ∷ pems)

  unfoldable pub load_private_keys : Bool → Config → Exec Files (List PrivateKey)
  load_private_keys auto_generate config = do
    pems ← load_pems auto_generate config
    lift (some_keys pems)

  abbrev pub modulus_text : Option ℕ → Text
  modulus_text none = codes "undefined"
  modulus_text (some bits) = to_decimal bits

  unfoldable pub describe_key : PrivateKey → ServerKey R C
  describe_key key =
      let spki = spki_der key in
      record {
        key_id = key_id_of spki;
        private_key = key;
        info = record {
          key_id = key_id_of spki;
          algorithm = codes "RSA-" ++ modulus_text (modulus_length key);
          pem = spki_pem key;
          spki_base64 = to_base64 spki;
          pkcs1_base64 = to_base64 (pkcs1_der key);
          sha256_fingerprint = sha256_hex spki;
        };
      }

  -- The constructor, and then onModuleInit.
  unfoldable pub start : Config → Config → Exec Files (List (ServerKey R C))
  start env config = do
    auto_generate ← lift (auto_generate_keys env config)
    keys ← load_private_keys auto_generate config
    pure (map describe_key keys)

  pub record PublicKeyInfo : Type 0 where
    pub info : KeyInfo
    pub accepted_key_ids : List Text

  -- this.keys[0] of no keys is undefined.
  unfoldable pub get_public_key_info : List (ServerKey R C) → Result PublicKeyInfo
  get_public_key_info [] = err (crash "TypeError")
  get_public_key_info (k ∷ ks) =
      ok (record { info = k.info; accepted_key_ids = map (λ j. j.key_id) (k ∷ ks) })

  unfoldable pub get_public_key_pem : List (ServerKey R C) → Result Text
  get_public_key_pem [] = err (crash "TypeError")
  get_public_key_pem (k ∷ ks) = ok k.info.pem
