-- ===== src/Keygen.antt =====
-- scripts/generate-keys.js: the script that makes a key pair for the gateway. The files are a map
-- from paths to texts. The random bytes that a run draws for its key are an argument; the key that
-- they give and what node:path does are parameters, and so is whether the directory can be made and
-- a file be written. `crash` is an exit with status 1, an Error
-- that is thrown included; the report is what the script prints, less its fixed words.
pub mod Keeps
pub mod Startup
use encryption_gateway.Prelude.{
  ℕ, Text, codes, text_eq, List, [], ◌∷◌, ◌==◌, take, Option, none, some, Bool, not, ◌&&◌, ◌||◌,
  if◌then◌else◌, leb, err, crash,
}
use encryption_gateway.Exec.{Exec, pure, raise, ◌>>=◌, ◌>>◌}
use encryption_gateway.OrderedMap
use encryption_gateway.OrderedMap.{OrderedMap}
use encryption_gateway.JsText.{trim_start, is_given, starts_with, parse_decimal}
use encryption_gateway.Config.{includes}
use encryption_gateway.Runtime.{Bytes, Runtime}
use encryption_gateway.Encryption.{Cipher}
use encryption_gateway.Encryption.Keys.{KeyTools}

-- What stands behind the first of the arguments that is the name, unless it is empty.
abbrev pub value_or : List Text → Text → Text
value_or [] fallback = fallback
value_or (value ∷ rest) fallback = if is_given value then value else fallback

unfoldable pub option_from : List Text → Text → Text → Text
option_from [] name fallback = fallback
option_from (arg ∷ rest) name fallback =
    let later = option_from rest name fallback in
    if text_eq arg name then value_or rest fallback else later

-- opt(name, fallback)
unfoldable pub opt : List Text → Text → Text → Text
opt args name fallback = option_from args (b'-' ∷ (b'-' ∷ name)) fallback

-- The digits that a text begins with.
unfoldable pub leading_digits : Text → Text
leading_digits [] = []
leading_digits (c ∷ s) =
    let rest = leading_digits s in if leb b'0' c && leb c b'9' then c ∷ rest else []

abbrev pub value_of_digits : Text → Option ℕ
value_of_digits [] = none
value_of_digits (d ∷ ds) = some (parse_decimal (d ∷ ds))

abbrev pub parse_signed : Text → Option ℕ
parse_signed [] = none
parse_signed (c ∷ s) =
    if c == b'-'
    then none
    else if c == b'+'
    then value_of_digits (leading_digits s)
    else value_of_digits (leading_digits (c ∷ s))

-- parseInt(text, 10), `none` for NaN and behind a minus sign.
unfoldable pub parse_int : Text → Option ℕ
parse_int text = parse_signed (trim_start text)

-- [2048, 3072, 4096].includes(bits)
unfoldable pub size_of : Option ℕ → Option ℕ
size_of none = none
size_of (some bits) = if bits == 2048 || (bits == 3072 || bits == 4096) then some bits else none

pub record Report : Type 0 where
  pub bits : ℕ
  pub private_shown : Text
  pub public_shown : Text
  pub rsa_private_key_path : Text
  pub rsa_private_key : Text
  pub key_id : Text
  pub pkcs1_base64 : Text
  pub sha256_fingerprint : Text

-- What the script takes from node:crypto, node:fs and node:path besides the forms of a public key.
pub record Shell (C : Cipher) : Type 0 where
  -- generateKeyPairSync of a size, from random bytes, and its export as PKCS #8
  pub generate : Bytes → ℕ → C.PrivateKey
  pub pkcs8_pem : C.PrivateKey → Text
  pub resolve : Text → Text
  pub join : Text → Text → Text
  -- path.relative(process.cwd(), p)
  pub relative : Text → Text
  -- mkdirSync and writeFileSync do not throw
  pub can_make : Text → Bool
  pub can_write : Text → Bool

module _ (R : Runtime) (C : Cipher) (K : KeyTools C) (shell : Shell C) where
  open R use {to_base64, utf8}
  open K use {spki_der, spki_pem, pkcs1_der, sha256_hex}
  open shell use {generate, pkcs8_pem, resolve, join, relative, can_make, can_write}

  unfoldable pub rel : Text → Text
  rel p =
      if not (is_given (relative p)) || starts_with (relative p) (codes "..") then p else relative p

  unfoldable pub make_directory : Text → Exec (OrderedMap Text) (Unit {0})
  make_directory path files = if can_make path then pure tt files else raise (crash "Error") files

  unfoldable pub write_file : Text → Text → Exec (OrderedMap Text) (Unit {0})
  write_file path text files =
      if can_write path
      then pure tt (OrderedMap.set path text files)
      else raise (crash "Error") files

  unfoldable pub report_of : ℕ → C.PrivateKey → Text → Text → Report
  report_of bits key private_path public_path = record {
    bits = bits;
    private_shown = rel private_path;
    public_shown = rel public_path;
    rsa_private_key_path = rel private_path;
    rsa_private_key = to_base64 (utf8 (pkcs8_pem key));
    key_id = take 16 (sha256_hex (spki_der key));
    pkcs1_base64 = to_base64 (pkcs1_der key);
    sha256_fingerprint = sha256_hex (spki_der key);
  }

  -- From the new key on.
  unfoldable pub write_keys : Bytes → ℕ → Text → Exec (OrderedMap Text) Report
  write_keys entropy bits directory =
      let key = generate entropy bits in
      let private_path = join directory (codes "private.pem") in
      let public_path = join directory (codes "public.pem") in
      do
        _ ← make_directory directory
        _ ← write_file private_path (pkcs8_pem key)
        _ ← write_file public_path (spki_pem key)
        pure (report_of bits key private_path public_path)

  abbrev pub has_keys : Text → OrderedMap Text → Bool
  has_keys directory files =
      OrderedMap.has (join directory (codes "private.pem")) files
      || OrderedMap.has (join directory (codes "public.pem")) files

  -- For a size that is allowed.
  unfoldable pub write_unless : Bytes → Bool → ℕ → Text → Exec (OrderedMap Text) Report
  write_unless entropy force bits directory files =
      let written = write_keys entropy bits directory files in
      if not force && has_keys directory files
      then (err (crash "Key files already exist"), files)
      else written

  -- By the size that was asked for.
  abbrev pub write_of_size : Bytes → Option ℕ → Bool → Text → Exec (OrderedMap Text) Report
  write_of_size entropy none force directory files =
      (err (crash "--bits must be 2048, 3072 or 4096"), files)
  write_of_size entropy (some bits) force directory files =
      write_unless entropy force bits directory files

  unfoldable pub keygen : Bytes → List Text → Exec (OrderedMap Text) Report
  keygen entropy args =
      write_of_size entropy (size_of (parse_int (opt args (codes "bits") (codes "2048"))))
        (includes args (codes "--force")) (resolve (opt args (codes "out") (codes "keys")))
