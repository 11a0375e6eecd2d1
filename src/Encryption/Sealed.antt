-- ===== src/Encryption/Sealed.antt =====
-- What a request is that decrypts, and that a client can read the reply.
use encryption_gateway.Prelude.{
  ◌-◌, ◌≤◌, Text, List, [], ◌∷◌, ◌++◌, length, take, drop, none, some, true, not, ◌==◌, ==_iff, ok,
  http, guard, ◌≡◌, ◌≢◌, ◌↔◌, refl, arith, >>=-eq-ok, ◌⊎◌, ap, length-append,
}
use encryption_gateway.Runtime.{Bytes, Json, Runtime}
use encryption_gateway.Payload.{DecryptedPayload, parse_payload}
use encryption_gateway.Encryption.{
  Cipher, GatewayRequest, ServerKey, seal, open_sealed, candidates, unwrap_key, has_sizes,
  or_bad_request, decrypt, encrypt_response,
}

module _ (R : Runtime) (C : Cipher) where
  open R use {Num, parse, stringify, to_base64, from_base64, utf8}
  open C use {private_decrypt, gcm_encrypt, gcm_decrypt, utf8_text}

  -- The first key of a list that decrypts a text, after keys that do not.
  abbrev pub IsUnwrapped : Bytes → Bytes → List (ServerKey R C) → Type 0
  IsUnwrapped ciphertext aes_key [] = ⊥
  IsUnwrapped ciphertext aes_key (k ∷ ks) =
      (private_decrypt ciphertext k.private_key ≡ some aes_key)
      ⊎ ((private_decrypt ciphertext k.private_key ≡ none) × IsUnwrapped ciphertext aes_key ks)

  unwrap_key_iff :
      (ciphertext aes_key : Bytes) (ks : List (ServerKey R C))
      → (unwrap_key R C ciphertext ks ≡ some aes_key) ↔ IsUnwrapped ciphertext aes_key ks
  unfolding unwrap_key
  unwrap_key_iff ciphertext aes_key [] = ground arith
  unwrap_key_iff ciphertext aes_key (k ∷ ks) = ground (arith, unwrap_key_iff ciphertext aes_key ks)

  some_candidate :
      (aes_key ciphertext : Bytes) (ks : List (ServerKey R C))
      → IsUnwrapped ciphertext aes_key ks
      → length ks ≢ 0
  some_candidate aes_key ciphertext [] h = absurd h
  some_candidate aes_key ciphertext (k ∷ ks) h = ground arith

  -- A request that carries a payload under an AES key for one of the server's keys.
  pub record IsSealed (keys : List (ServerKey R C)) (dto : GatewayRequest)
      (payload : DecryptedPayload Num) (aes_key : Bytes) : Type 0 where
    pub json : Text
    pub value : Json Num
    pub unwrapped :
        IsUnwrapped (from_base64 dto.encrypted_key) aes_key (candidates R C dto.key_id keys)
    pub key_size : length aes_key ≡ 32
    pub iv_size : length (from_base64 dto.iv) ≡ 12
    pub tagged : 16 ≤ length (from_base64 dto.payload)
    pub authentic :
        open_sealed R C (from_base64 dto.payload) aes_key (from_base64 dto.iv) ≡ some json
    pub parsed : parse json ≡ some value
    pub accepted : parse_payload R value ≡ ok payload

  sizes_sound :
      (key iv sealed : Bytes)
      → has_sizes R C key iv sealed ≡ true
      → (length key ≡ 32) × (length iv ≡ 12) × (16 ≤ length sealed)
  unfolding has_sizes
  sizes_sound key iv sealed h = ground (arith, ==_iff (length key) 32, ==_iff (length iv) 12)

  decrypt_sound :
      (keys : List (ServerKey R C)) (dto : GatewayRequest) (payload : DecryptedPayload Num)
      (aes_key : Bytes)
      → decrypt R C keys dto ≡ ok (payload, aes_key)
      → IsSealed keys dto payload aes_key
  unfolding decrypt
  decrypt_sound keys dto payload aes_key h =
      let (u1, there, h1) =
        >>=-eq-ok
          (guard (not (length (candidates R C dto.key_id keys) == 0)) (http 400 "UNKNOWN_KEY_ID")) _
          h in
      let (key, unwrapped, h2) =
        >>=-eq-ok
          (or_bad_request R C
            (unwrap_key R C (from_base64 dto.encrypted_key) (candidates R C dto.key_id keys))
            "Unable to decrypt EncryptedKey")
          _ h1 in
      let (u2, sizes, h3) =
        >>=-eq-ok
          (guard (has_sizes R C key (from_base64 dto.iv) (from_base64 dto.payload))
            (http 400 "Expected a 32-byte AES key, 12-byte IV and a GCM-sealed Payload"))
          _ h2 in
      let (json, authentic, h4) =
        >>=-eq-ok
          (or_bad_request R C (open_sealed R C (from_base64 dto.payload) key (from_base64 dto.iv))
            "Unable to decrypt Payload")
          _ h3 in
      let (value, parsed, h5) =
        >>=-eq-ok (or_bad_request R C (parse json) "Decrypted payload is not valid JSON") _ h4 in
      let (p, accepted, last) = >>=-eq-ok (parse_payload R value) _ h5 in
      let same_key : key ≡ aes_key = ground (arith, last) in
      let (key_size, iv_size, tagged) =
        sizes_sound key (from_base64 dto.iv) (from_base64 dto.payload) (ground (arith, sizes)) in
      let same_payload : p ≡ payload = ground (arith, last) in
      record {
        json = json;
        value = value;
        unwrapped =
            (unwrap_key_iff (from_base64 dto.encrypted_key) aes_key
                (candidates R C dto.key_id keys)).0
              (ground (arith, unwrapped, same_key));
        key_size = ground (arith, key_size, same_key);
        iv_size = iv_size;
        tagged = tagged;
        authentic = ground (arith, authentic, same_key);
        parsed = ground (arith, parsed);
        accepted = ground (arith, accepted, same_payload);
      }

  decrypt_complete :
      (keys : List (ServerKey R C)) (dto : GatewayRequest) (payload : DecryptedPayload Num)
      (aes_key : Bytes)
      → IsSealed keys dto payload aes_key
      → decrypt R C keys dto ≡ ok (payload, aes_key)
  unfolding decrypt has_sizes
  decrypt_complete keys dto payload aes_key s = ground (
    arith,
    (unwrap_key_iff (from_base64 dto.encrypted_key) aes_key (candidates R C dto.key_id keys)).1
        s.unwrapped,
    some_candidate aes_key (from_base64 dto.encrypted_key) (candidates R C dto.key_id keys)
        s.unwrapped,
    s.key_size,
    s.iv_size,
    s.tagged,
    s.authentic,
    s.parsed,
    s.accepted,
  )

  -- A request decrypts to a payload and an AES key exactly when it is sealed: the first of the
  -- candidate keys that decrypts EncryptedKey gives this AES key, of 32 bytes, the initialisation
  -- vector has 12 bytes and Payload the 16 of a tag at least, it is authentic under the key, and
  -- what it holds is JSON that the check of payloads accepts as this payload.
  pub decrypt_iff :
      (keys : List (ServerKey R C)) (dto : GatewayRequest) (payload : DecryptedPayload Num)
      (aes_key : Bytes)
      → (decrypt R C keys dto ≡ ok (payload, aes_key)) ↔ IsSealed keys dto payload aes_key
  decrypt_iff keys dto payload aes_key =
      (decrypt_sound keys dto payload aes_key, decrypt_complete keys dto payload aes_key)

  take-append : (a b : Bytes) → take (length a) (a ++ b) ≡ a
  take-append [] b = refl
  take-append (x ∷ a) b = ap (λ t. x ∷ t) (take-append a b)

  drop-append : (a b : Bytes) → drop (length a) (a ++ b) ≡ b
  drop-append [] b = refl
  drop-append (x ∷ a) b = drop-append a b

  pub split_sealed :
      (c tag : Bytes)
      → length tag ≡ 16
      → (take (length (c ++ tag) - 16) (c ++ tag) ≡ c)
        × (drop (length (c ++ tag) - 16) (c ++ tag) ≡ tag)
  split_sealed c tag h =
      let n : length (c ++ tag) - 16 ≡ length c = omega (arith, length-append c tag, h) in
      (rw n (take-append c tag), rw n (drop-append c tag))

  -- AES-GCM opens what it sealed under this key and initialisation vector, with a tag of 16 bytes,
  -- and UTF-8 and Base64 give back what was written.
  pub record IsOpenable (text : Text) (key iv : Bytes) : Type 0 where
    pub tag_size : length (gcm_encrypt (utf8 text) key iv).1 ≡ 16
    pub opens :
        gcm_decrypt (gcm_encrypt (utf8 text) key iv).0 (gcm_encrypt (utf8 text) key iv).1 key iv
        ≡ some (utf8 text)
    pub utf8_back : utf8_text (utf8 text) ≡ text
    pub iv_back : from_base64 (to_base64 iv) ≡ iv
    pub sealed_back : from_base64 (to_base64 (seal R C text key iv)) ≡ seal R C text key iv

  pub open-seal :
      (text : Text) (key iv : Bytes)
      → IsOpenable text key iv
      → open_sealed R C (seal R C text key iv) key iv ≡ some text
  unfolding open_sealed seal
  open-seal text key iv o =
      let (front, back) =
        split_sealed (gcm_encrypt (utf8 text) key iv).0 (gcm_encrypt (utf8 text) key iv).1
          o.tag_size in
      ground (arith, front, back, o.opens, o.utf8_back)

  -- The client opens a reply with the AES key of its request, and reads the JSON that was sealed.
  pub open-encrypt_response :
      (payload : Json Num) (key iv : Bytes)
      → IsOpenable (stringify payload) key iv
      → open_sealed R C
          (from_base64 (encrypt_response R C payload key iv).payload)
          key
          (from_base64 (encrypt_response R C payload key iv).iv)
        ≡ some (stringify payload)
  unfolding encrypt_response
  open-encrypt_response payload key iv o =
      rw (o.sealed_back, o.iv_back) (open-seal (stringify payload) key iv o)
