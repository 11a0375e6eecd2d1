-- ===== src/Encryption.antt =====
-- decrypt and encryptResponse of encryption/encryption.service.ts, with encryption/aes.util.ts and
-- encryption/rsa.util.ts. The operations of node:crypto are parameters, and the random bytes of an
-- initialisation vector an argument. A KeyId that is missing or empty is `none` or empty.
pub mod Sealed
pub mod Keys
pub mod Aes
use encryption_gateway.Prelude.{
  ◌-◌, Text, text_eq, List, [], ◌∷◌, ◌++◌, length, take, drop, filter, Option, none, some, Bool,
  not, ◌&&◌, ◌==◌, ltb, Result, ok, err, http, guard, ◌>>=◌, ◌>>◌, String,
}
use encryption_gateway.Runtime.{Bytes, Json, Runtime}
use encryption_gateway.Payload.{DecryptedPayload, parse_payload}

pub record Cipher : Type 1 where
  pub PrivateKey : Type 0
  -- privateDecrypt with OAEP and SHA-256, `none` if it throws
  pub private_decrypt : Bytes → PrivateKey → Option Bytes
  -- aes-256-gcm: ciphertext and tag of a plaintext, and the plaintext of a ciphertext with its
  -- tag, `none` if it throws; the key and the initialisation vector come last
  pub gcm_encrypt : Bytes → Bytes → Bytes → Bytes × Bytes
  pub gcm_decrypt : Bytes → Bytes → Bytes → Bytes → Option Bytes
  -- buffer.toString('utf-8')
  pub utf8_text : Bytes → Text

pub record GatewayRequest : Type 0 where
  pub key_id : Option Text
  pub encrypted_key : Text
  pub iv : Text
  pub payload : Text

pub record GatewayResponse : Type 0 where
  pub iv : Text
  pub payload : Text

-- ServerKey.info: the public key in the formats of the clients.
pub record KeyInfo : Type 0 where
  pub key_id : Text
  pub algorithm : Text
  pub pem : Text
  pub spki_base64 : Text
  pub pkcs1_base64 : Text
  pub sha256_fingerprint : Text

module _ (R : Runtime) (C : Cipher) where
  open R use {Num, parse, stringify, to_base64, from_base64, utf8}
  open C use {PrivateKey, private_decrypt, gcm_encrypt, gcm_decrypt, utf8_text}

  pub record ServerKey : Type 0 where
    pub key_id : Text
    pub private_key : PrivateKey
    pub info : KeyInfo

  -- AesUtil.seal: the tag stands behind the ciphertext.
  unfoldable pub seal : Text → Bytes → Bytes → Bytes
  seal plain_text key iv =
      let (cipher_text, tag) = gcm_encrypt (utf8 plain_text) key iv in cipher_text ++ tag

  -- AesUtil.open on at least 16 bytes, which `decrypt` has checked.
  unfoldable pub open_sealed : Bytes → Bytes → Bytes → Option Text
  open_sealed sealed key iv =
      elim (gcm_decrypt (take (length sealed - 16) sealed) (drop (length sealed - 16) sealed) key
        iv) [ none ↦ none | some plain ↦ some (utf8_text plain) ]

  unfoldable pub candidates : Option Text → List ServerKey → List ServerKey
  candidates none keys = keys
  candidates (some []) keys = keys
  candidates (some (c ∷ cs)) keys = filter (λ k. text_eq k.key_id (c ∷ cs)) keys

  -- The loop over the candidates: the first key that decrypts.
  unfoldable pub unwrap_key : Bytes → List ServerKey → Option Bytes
  unwrap_key ciphertext [] = none
  unwrap_key ciphertext (k ∷ ks) =
      let rest = unwrap_key ciphertext ks in
      elim (private_decrypt ciphertext k.private_key) [ none ↦ rest | some aes_key ↦ some aes_key ]

  -- A value, or 400.
  abbrev pub or_bad_request {ℓ} : {A : Type ℓ} → Option A → String → Result A
  or_bad_request none reason = err (http 400 reason)
  or_bad_request (some a) reason = ok a

  unfoldable pub has_sizes : Bytes → Bytes → Bytes → Bool
  has_sizes aes_key iv sealed =
      length aes_key == 32 && (length iv == 12 && not (ltb (length sealed) 16))

  unfoldable pub decrypt : List ServerKey → GatewayRequest → Result (DecryptedPayload Num × Bytes)
  decrypt keys dto = do
    guard (not (length (candidates dto.key_id keys) == 0)) (http 400 "UNKNOWN_KEY_ID")
    aes_key ←
        or_bad_request (unwrap_key (from_base64 dto.encrypted_key) (candidates dto.key_id keys))
          "Unable to decrypt EncryptedKey"
    guard (has_sizes aes_key (from_base64 dto.iv) (from_base64 dto.payload))
        (http 400 "Expected a 32-byte AES key, 12-byte IV and a GCM-sealed Payload")
    json ←
        or_bad_request (open_sealed (from_base64 dto.payload) aes_key (from_base64 dto.iv))
          "Unable to decrypt Payload"
    value ← or_bad_request (parse json) "Decrypted payload is not valid JSON"
    payload ← parse_payload R value
    ok (payload, aes_key)

  unfoldable pub encrypt_response : Json Num → Bytes → Bytes → GatewayResponse
  encrypt_response payload aes_key iv = record {
    iv = to_base64 iv;
    payload = to_base64 (seal (stringify payload) aes_key iv);
  }
