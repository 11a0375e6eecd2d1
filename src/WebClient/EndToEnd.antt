-- ===== src/WebClient/EndToEnd.antt =====
-- The browser client and the gateway together: a request from its options to the result.
use encryption_gateway.Prelude.{
  ℕ, ◌≤◌, Text, text_eq, List, ◌++◌, length, Option, some, true, ok, ◌≡◌, refl, arith, ◌∙◌,
  length-append,
}
use encryption_gateway.Runtime.{Bytes, Json, member, Runtime}
use encryption_gateway.Encryption.{
  Cipher, GatewayRequest, ServerKey, seal, open_sealed, candidates, encrypt_response,
}
use encryption_gateway.Encryption.Sealed.{IsUnwrapped, IsSealed, decrypt_iff, split_sealed}
use encryption_gateway.Payload.{DecryptedPayload, parse_payload}
use encryption_gateway.Replay.{Times, assert_fresh}
use encryption_gateway.TargetPolicy.{Url}
use encryption_gateway.Proxy.Service.{
  UpstreamRequest, UpstreamResult, UpstreamResponse, ProxyService, build_request, answer, send,
  forward,
}
use encryption_gateway.Proxy.Controller.{
  GatewayState, Reply, encrypted, json_headers, json_of_response, reply_of, json_of_reply,
  assert_fresh_step, forward_step, handle_gateway,
}
use encryption_gateway.WebClient.{
  WebCrypto, SendOptions, GatewayClient, to_b64, payload_of, seal_request, result, open_reply,
  receive_sealed, receive_marked, receive,
}
use encryption_gateway.WebClient.Binary.{binary_string_lem}

module _ (R : Runtime) (C : Cipher) (W : WebCrypto R.Num) where
  open R use {Num, parse, stringify, to_base64, from_base64, utf8}
  open C use {gcm_encrypt, gcm_decrypt, utf8_text}

  -- The client's key is the public part of a key that the gateway accepts: the gateway's first
  -- candidate that decrypts what the client encrypts gives the AES key back. WebCrypto puts the tag
  -- behind the ciphertext, AES-GCM opens what it sealed, and Base64, UTF-8 and JSON give back what
  -- was written.
  pub record IsReadable (keys : List (ServerKey R C)) (client : GatewayClient R W)
      (raw_key iv : Bytes) (text : Text) (value : Json Num) : Type 0 where
    pub public_key : W.PublicKey
    pub encrypted_key : Bytes
    pub imported : client.server_key ≡ some public_key
    pub encrypts : W.rsa_encrypt public_key raw_key ≡ some encrypted_key
    pub unwraps : IsUnwrapped R C encrypted_key raw_key (candidates R C client.key_id keys)
    pub key_size : length raw_key ≡ 32
    pub iv_size : length iv ≡ 12
    pub tag_size : length (gcm_encrypt (utf8 text) raw_key iv).1 ≡ 16
    pub appends :
        W.aes_encrypt raw_key iv (utf8 text)
        ≡ (gcm_encrypt (utf8 text) raw_key iv).0 ++ (gcm_encrypt (utf8 text) raw_key iv).1
    pub opens :
        gcm_decrypt
          (gcm_encrypt (utf8 text) raw_key iv).0
          (gcm_encrypt (utf8 text) raw_key iv).1
          raw_key
          iv
        ≡ some (utf8 text)
    pub base64 : (b : Bytes) → from_base64 (W.btoa b) ≡ b
    pub utf8_back : utf8_text (utf8 text) ≡ text
    pub json : parse text ≡ some value

  from_base64-to_b64 :
      ((b : Bytes) → from_base64 (W.btoa b) ≡ b) → (b : Bytes) → from_base64 (to_b64 R W b) ≡ b
  unfolding to_b64
  from_base64-to_b64 base64 b = rw (to_b64, binary_string_lem b) (base64 b)

  module _ (keys : List (ServerKey R C)) (client : GatewayClient R W) (raw_key iv : Bytes)
      (text : Text) (value : Json Num) (r : IsReadable keys client raw_key iv text value) where
    open_sealed-aes_encrypt :
        open_sealed R C (W.aes_encrypt raw_key iv (utf8 text)) raw_key iv ≡ some text
    unfolding open_sealed
    open_sealed-aes_encrypt =
        let (front, back) =
          split_sealed R C (gcm_encrypt (utf8 text) raw_key iv).0
            (gcm_encrypt (utf8 text) raw_key iv).1 r.tag_size in
        rw r.appends (ground (arith, front, back, r.opens, r.utf8_back))

    length-aes_encrypt : 16 ≤ length (W.aes_encrypt raw_key iv (utf8 text))
    length-aes_encrypt = rw r.appends (
        omega (
          arith,
          r.tag_size,
          length-append (gcm_encrypt (utf8 text) raw_key iv).0
              (gcm_encrypt (utf8 text) raw_key iv).1,
        ))

    -- The request that the client sends.
    abbrev sealed_request : GatewayRequest
    sealed_request = record {
      key_id = client.key_id;
      encrypted_key = to_b64 R W r.encrypted_key;
      iv = to_b64 R W iv;
      payload = to_b64 R W (W.aes_encrypt raw_key iv (utf8 text));
    }

    sealed_request-IsSealed :
        (payload : DecryptedPayload Num)
        → parse_payload R value ≡ ok payload
        → IsSealed R C keys sealed_request payload raw_key
    sealed_request-IsSealed payload accepted =
        let back = from_base64-to_b64 r.base64 in
        record {
          json = text;
          value = value;
          unwrapped = rw (back r.encrypted_key) r.unwraps;
          key_size = r.key_size;
          iv_size = rw (back iv) r.iv_size;
          tagged = rw (back (W.aes_encrypt raw_key iv (utf8 text))) length-aes_encrypt;
          authentic =
              rw (back (W.aes_encrypt raw_key iv (utf8 text)), back iv) open_sealed-aes_encrypt;
          parsed = r.json;
          accepted = accepted;
        }

  seal_request-eq :
      (keys : List (ServerKey R C)) (client : GatewayClient R W) (options : SendOptions Num)
      (raw_key iv : Bytes)
      (r : IsReadable keys client raw_key iv
        (stringify (payload_of R W options))
        (payload_of R W options))
      → seal_request R W client options raw_key iv
        ≡ ok (sealed_request keys client raw_key iv _ _ r)
  unfolding seal_request
  seal_request-eq keys client options raw_key iv r = rw (r.imported, r.encrypts) refl

  -- The browser can read the reply: what `seal` sealed is opened, and Base64, UTF-8 and JSON give
  -- back what was written.
  pub record IsReplyReadable (raw_key iv : Bytes) (value : Json Num) : Type 0 where
    pub iv_back : W.atob (to_base64 iv) ≡ some iv
    pub sealed_back :
        W.atob (to_base64 (seal R C (stringify value) raw_key iv))
        ≡ some (seal R C (stringify value) raw_key iv)
    pub opens :
        W.aes_decrypt raw_key iv (seal R C (stringify value) raw_key iv)
        ≡ some (utf8 (stringify value))
    pub utf8_back : W.decode (utf8 (stringify value)) ≡ stringify value
    pub json : parse (stringify value) ≡ some value

  receive-encrypt_response :
      (T : Times Num) (client : GatewayClient R W) (raw_key iv : Bytes) (status : ℕ)
      (value : Json Num)
      → IsReplyReadable raw_key iv value
      → receive R W client raw_key true status
          (json_of_reply R C T (encrypted (encrypt_response R C value raw_key iv)))
        ≡ result R W value
  unfolding receive json_of_reply receive_marked receive_sealed open_reply encrypt_response member
      text_eq
  receive-encrypt_response T client raw_key iv status value r =
      ground (arith, r.iv_back, r.sealed_back, r.opens, r.utf8_back, r.json)

  result-json_of_response :
      (T : Times Num) (upstream : UpstreamResponse R)
      → W.is_status upstream.status ≡ true
      → result R W (json_of_response R C T upstream)
        ≡ ok (record {
          status_code = upstream.status;
          headers = json_headers R C T upstream.headers;
          content = upstream.body;
        })
  unfolding result json_of_response member text_eq
  result-json_of_response T upstream h = rw h refl

  module _ (T : Times Num) (lower upper : Text → Text) (pathname_of : Text → Option Text)
      (parse_url : Text → Option Url) where
    -- The client's request is sealed, the gateway answers it, and the client reads the upstream's
    -- answer in the reply: its status, its sanitized headers and its body. This is so when the
    -- gateway accepts the payload, it is fresh, the policy permits its request, the upstream answers
    -- with a status that the client takes, and both sides can read what the other writes.
    pub receive-handle_gateway :
        (keys : List (ServerKey R C)) (client : GatewayClient R W) (options : SendOptions Num)
        (raw_key iv iv2 : Bytes) (service : ProxyService R)
        (send_request : UpstreamRequest R → UpstreamResult R) (now : ℕ) (s : GatewayState R C T)
        (payload : DecryptedPayload Num) (request : UpstreamRequest R)
        (upstream : UpstreamResponse R)
        → IsReadable keys client raw_key iv
            (stringify (payload_of R W options))
            (payload_of R W options)
        → parse_payload R (payload_of R W options) ≡ ok payload
        → (assert_fresh T payload now s.replay).0 ≡ ok tt
        → build_request R lower upper pathname_of parse_url service payload ≡ ok request
        → answer R lower upper pathname_of parse_url (send_request request) ≡ ok upstream
        → W.is_status upstream.status ≡ true
        → IsReplyReadable raw_key iv2 (json_of_response R C T upstream)
        → (dto : GatewayRequest) × (reply : Reply R C T) × (seal_request R W client options raw_key
              iv
            ≡ ok dto)
          × ((handle_gateway R C T lower upper pathname_of parse_url true keys service send_request
                now iv2 dto s).0
              ≡ ok reply)
          × (receive R W client raw_key true 200 (json_of_reply R C T reply)
              ≡ ok (record {
                status_code = upstream.status;
                headers = json_headers R C T upstream.headers;
                content = upstream.body;
              }))
    unfolding handle_gateway assert_fresh_step forward_step forward send reply_of
    receive-handle_gateway keys client options raw_key iv iv2 service send_request now s payload
          request upstream readable accepted fresh built answered status reply_readable =
        let sealed = sealed_request-IsSealed keys client raw_key iv _ _ readable payload accepted in
        (
          sealed_request keys client raw_key iv _ _ readable,
          encrypted (encrypt_response R C (json_of_response R C T upstream) raw_key iv2),
          seal_request-eq keys client options raw_key iv readable,
          (rw ((decrypt_iff R C keys _ payload raw_key).1 sealed, fresh, built, answered) refl),
          receive-encrypt_response T client raw_key iv2 200 _ reply_readable
              ∙ result-json_of_response T upstream status,
        )
