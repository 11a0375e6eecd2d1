-- ===== src/Encryption/Aes.antt =====
-- AesUtil.encrypt and AesUtil.decrypt of encryption/aes.util.ts, with the parts of a ciphertext apart.
-- The random key and initialisation vector are arguments.
use encryption_gateway.Prelude.{Text, none, some, ◌≡◌, arith, Result, ok, err, crash}
use encryption_gateway.Runtime.{Bytes, Runtime}
use encryption_gateway.Encryption.{Cipher}

pub record AesEncryptResult : Type 0 where
  pub key : Bytes
  pub iv : Text
  pub cipher_text : Text
  pub auth_tag : Text

-- string | Buffer
pub data KeyMaterial : Type 0 where
  key_text : Text → KeyMaterial
  key_buffer : Bytes → KeyMaterial

module _ (R : Runtime) (C : Cipher) where
  open R use {to_base64, from_base64, utf8}
  open C use {gcm_encrypt, gcm_decrypt, utf8_text}

  unfoldable pub aes_encrypt : Text → Bytes → Bytes → AesEncryptResult
  aes_encrypt plain_text key iv =
      let (encrypted, auth_tag) = gcm_encrypt (utf8 plain_text) key iv in
      record {
        key = key;
        iv = to_base64 iv;
        cipher_text = to_base64 encrypted;
        auth_tag = to_base64 auth_tag;
      }

  abbrev pub bytes_of : KeyMaterial → Bytes
  bytes_of (key_text t) = from_base64 t
  bytes_of (key_buffer b) = b

  unfoldable pub aes_decrypt : Text → KeyMaterial → Text → Text → Result Text
  aes_decrypt cipher_text key iv auth_tag =
      elim (gcm_decrypt (from_base64 cipher_text) (from_base64 auth_tag) (bytes_of key)
        (from_base64 iv)) [
          | none ↦ err (crash "Unsupported state or unable to authenticate data")
          | some plain ↦ ok (utf8_text plain)
        ]

  -- `aes_decrypt` gives the text back that `aes_encrypt` was given, by the key as bytes or in
  -- Base64, where AES-GCM opens what it sealed, and UTF-8 and Base64 give back what was written.
  pub aes_decrypt-aes_encrypt :
      (plain_text : Text) (key iv : Bytes) (material : KeyMaterial)
      → bytes_of material ≡ key
      → gcm_decrypt
          (gcm_encrypt (utf8 plain_text) key iv).0
          (gcm_encrypt (utf8 plain_text) key iv).1
          key
          iv
        ≡ some (utf8 plain_text)
      → utf8_text (utf8 plain_text) ≡ plain_text
      → ((b : Bytes) → from_base64 (to_base64 b) ≡ b)
      → aes_decrypt
          (aes_encrypt plain_text key iv).cipher_text
          material
          (aes_encrypt plain_text key iv).iv
          (aes_encrypt plain_text key iv).auth_tag
        ≡ ok plain_text
  unfolding aes_encrypt aes_decrypt
  aes_decrypt-aes_encrypt plain_text key iv material same opens utf8_back base64 = ground (
    arith,
    same,
    base64 iv,
    base64 (gcm_encrypt (utf8 plain_text) key iv).0,
    base64 (gcm_encrypt (utf8 plain_text) key iv).1,
    opens,
    utf8_back,
  )
