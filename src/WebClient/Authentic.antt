-- ===== src/WebClient/Authentic.antt =====
-- What a client accepts as a reply.
use encryption_gateway.Prelude.{
  ℕ, Text, codes, Option, none, some, Bool, true, false, ok, ◌≡◌, refl, arith, >>=-eq-ok,
}
use encryption_gateway.Runtime.{Bytes, Json, bool, str, obj, Fields, member, Runtime}
use encryption_gateway.WebClient.{
  WebCrypto, GatewayClient, GatewayResult, or_reject, result, open_reply, receive_plain,
  receive_sealed, receive_marked, receive,
}

module _ (R : Runtime) (W : WebCrypto R.Num) where
  open R use {Num, parse}
  open W use {aes_decrypt, atob, decode, is_status}

  -- The JSON holds a ciphertext that the key of the request opens, to JSON with this result.
  pub record IsAuthentic (raw_key : Bytes) (fs : Fields Num) (r : GatewayResult R W) : Type 0 where
    pub iv : Text
    pub payload : Text
    pub iv_bytes : Bytes
    pub sealed : Bytes
    pub plain : Bytes
    pub value : Json Num
    pub iv_is : member (codes "IV") fs ≡ some (str iv)
    pub payload_is : member (codes "Payload") fs ≡ some (str payload)
    pub iv_read : atob iv ≡ some iv_bytes
    pub sealed_read : atob payload ≡ some sealed
    pub authentic : aes_decrypt raw_key iv_bytes sealed ≡ some plain
    pub parsed : parse (decode plain) ≡ some value
    pub result_is : result R W value ≡ ok r

  or_reject-eq-ok {ℓ} : {A : Type ℓ} (o : Option A) {a : A} → or_reject R W o ≡ ok a → o ≡ some a
  or_reject-eq-ok none h = ground (arith, h)
  or_reject-eq-ok (some b) h = ground (arith, h)

  open_reply-IsAuthentic :
      (raw_key : Bytes) (fs : Fields Num) (iv payload : Text) (r : GatewayResult R W)
      → member (codes "IV") fs ≡ some (str iv)
      → member (codes "Payload") fs ≡ some (str payload)
      → open_reply R W raw_key iv payload ≡ ok r
      → IsAuthentic raw_key fs r
  unfolding open_reply
  open_reply-IsAuthentic raw_key fs iv payload r e1 e2 h =
      let (iv_bytes, i, h1) = >>=-eq-ok (or_reject R W (atob iv)) _ h in
      let (sealed, s, h2) = >>=-eq-ok (or_reject R W (atob payload)) _ h1 in
      let (plain, p, h3) = >>=-eq-ok (or_reject R W (aes_decrypt raw_key iv_bytes sealed)) _ h2 in
      let (value, v, last) = >>=-eq-ok (or_reject R W (parse (decode plain))) _ h3 in
      record {
        iv = iv;
        payload = payload;
        iv_bytes = iv_bytes;
        sealed = sealed;
        plain = plain;
        value = value;
        iv_is = e1;
        payload_is = e2;
        iv_read = or_reject-eq-ok (atob iv) i;
        sealed_read = or_reject-eq-ok (atob payload) s;
        authentic = or_reject-eq-ok (aes_decrypt raw_key iv_bytes sealed) p;
        parsed = or_reject-eq-ok (parse (decode plain)) v;
        result_is = last;
      }

  receive_sealed-IsAuthentic :
      (raw_key : Bytes) (fs : Fields Num) (iv payload : Option (Json Num)) (r : GatewayResult R W)
      → member (codes "IV") fs ≡ iv
      → member (codes "Payload") fs ≡ payload
      → receive_sealed R W raw_key iv payload ≡ ok r
      → IsAuthentic raw_key fs r
  unfolding receive_sealed
  receive_sealed-IsAuthentic raw_key fs (some (str iv)) (some (str payload)) r e1 e2 h =
      open_reply-IsAuthentic raw_key fs iv payload r e1 e2 h
  receive_sealed-IsAuthentic raw_key fs _ _ r e1 e2 h = ground (arith, h)

  receive_marked-IsAuthentic :
      (client : GatewayClient R W) (raw_key : Bytes) (fs : Fields Num) (mark : Option (Json Num))
      (r : GatewayResult R W)
      → client.require_encrypted_response ≡ true
      → receive_marked R W client raw_key fs mark ≡ ok r
      → IsAuthentic raw_key fs r
  unfolding receive_marked receive_plain
  receive_marked-IsAuthentic client raw_key fs none r required h =
      receive_sealed-IsAuthentic raw_key fs _ _ r refl refl h
  receive_marked-IsAuthentic client raw_key fs (some (bool true)) r required h =
      receive_sealed-IsAuthentic raw_key fs _ _ r refl refl h
  receive_marked-IsAuthentic client raw_key fs (some (bool false)) r required h =
      ground (arith, required, h)
  receive_marked-IsAuthentic client raw_key fs _ r required h = ground (arith, h)

  -- A client that requires encrypted replies takes a result only from a reply that AES-GCM opens
  -- under the random key of its own request.
  pub receive-IsAuthentic :
      (client : GatewayClient R W) (raw_key : Bytes) (status : ℕ) (is_ok : Bool) (json : Json Num)
      (r : GatewayResult R W)
      → client.require_encrypted_response ≡ true
      → receive R W client raw_key is_ok status json ≡ ok r
      → (fs : Fields Num) × (json ≡ obj fs) × IsAuthentic raw_key fs r
  unfolding receive
  receive-IsAuthentic client raw_key status true (obj fs) r required h =
      (fs, refl, receive_marked-IsAuthentic client raw_key fs _ r required h)
  receive-IsAuthentic client raw_key status _ _ r required h = ground (arith, h)
