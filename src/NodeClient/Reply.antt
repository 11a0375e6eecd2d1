-- ===== src/NodeClient/Reply.antt =====
-- What the script shows of the replies of the gateway.
use encryption_gateway.Prelude.{
  ◌≤◌, Text, text_eq, length, some, Bool, true, false, ok, ◌≡◌, ◌⊎◌, inl, inr, refl, arith,
  length-append,
}
use encryption_gateway.Runtime.{Bytes, Json, num, obj, member, Runtime}
use encryption_gateway.Config.{Config}
use encryption_gateway.Encryption.{Cipher, seal, open_sealed, encrypt_response}
use encryption_gateway.Encryption.Sealed.{IsOpenable, open-seal}
use encryption_gateway.Replay.{Times}
use encryption_gateway.Proxy.Service.{UpstreamResponse}
use encryption_gateway.Proxy.Controller.{
  encrypted, plain, json_headers, json_of_response, reply_of, json_of_reply,
}
use encryption_gateway.NodeClient.{
  requires_encryption, property, base64_bytes, open_data, open_body, Shown, shown_of, result_of,
  receive,
}

module _ (R : Runtime) (C : Cipher) where
  open R use {Num, parse, stringify, to_base64, from_base64, utf8}
  open C use {gcm_encrypt}

  -- What is shown of an answer of the upstream.
  abbrev pub shown_answer : (T : Times Num) → UpstreamResponse R → Shown R C
  shown_answer T upstream = record {
    status_code = some (num upstream.status);
    headers = some (obj (json_headers R C T upstream.headers));
    content = some upstream.body;
  }

  open_data-sealed :
      (sealed aes_key iv : Bytes) (text : Text) (value : Json Num)
      → 16 ≤ length sealed
      → open_sealed R C sealed aes_key iv ≡ some text
      → parse text ≡ some value
      → open_data R C aes_key iv sealed ≡ ok value
  unfolding open_data open_sealed
  open_data-sealed sealed aes_key iv text value long opened json =
      ground (arith, long, opened, json)

  pub length-seal :
      (aes_key iv : Bytes) (text : Text)
      → IsOpenable R C text aes_key iv
      → 16 ≤ length (seal R C text aes_key iv)
  unfolding seal
  length-seal aes_key iv text o = omega (
    arith,
    o.tag_size,
    length-append (gcm_encrypt (utf8 text) aes_key iv).0 (gcm_encrypt (utf8 text) aes_key iv).1,
  )

  open_data-reply :
      (aes_key iv : Bytes) (text : Text) (value : Json Num)
      → IsOpenable R C text aes_key iv
      → parse text ≡ some value
      → open_data R C aes_key
          (from_base64 (to_base64 iv))
          (from_base64 (to_base64 (seal R C text aes_key iv)))
        ≡ ok value
  open_data-reply aes_key iv text value o json =
      rw (o.iv_back, o.sealed_back)
        (open_data-sealed (seal R C text aes_key iv) aes_key iv text value
          (length-seal aes_key iv text o) (open-seal R C text aes_key iv o) json)

  receive-plain :
      (T : Times Num) (env : Config) (aes_key : Bytes) (upstream : UpstreamResponse R)
      → requires_encryption (env "REQUIRE_ENCRYPTED_RESPONSE") ≡ false
      → receive R C env aes_key
          (record { status = 200; json = some (json_of_reply R C T (plain upstream)) })
        ≡ ok (some (shown_answer T upstream))
  unfolding receive property result_of shown_of json_of_reply member text_eq
  receive-plain T env aes_key upstream h = rw h refl

  receive-encrypted :
      (T : Times Num) (env : Config) (aes_key iv : Bytes) (upstream : UpstreamResponse R)
      → IsOpenable R C (stringify (json_of_response R C T upstream)) aes_key iv
      → parse (stringify (json_of_response R C T upstream)) ≡ some (json_of_response R C T upstream)
      → receive R C env aes_key (record {
        status = 200;
        json = some (
            json_of_reply R C T
              (encrypted (encrypt_response R C (json_of_response R C T upstream) aes_key iv)));
      })
        ≡ ok (some (shown_answer T upstream))
  unfolding receive property result_of shown_of json_of_reply json_of_response member text_eq
      open_body base64_bytes encrypt_response
  receive-encrypted T env aes_key iv upstream o json =
      rw
        (open_data-reply aes_key iv (stringify (json_of_response R C T upstream))
          (json_of_response R C T upstream) o json)
        refl

  -- The reply is sealed and can be read, or it is plain and the environment allows that.
  abbrev pub IsReplyReadable :
      Times Num → Config → Bool → Bytes → Bytes → UpstreamResponse R → Type 0
  IsReplyReadable T env encrypt aes_key iv upstream =
      ((encrypt ≡ true)
        × IsOpenable R C (stringify (json_of_response R C T upstream)) aes_key iv
        × (parse (stringify (json_of_response R C T upstream))
            ≡ some (json_of_response R C T upstream)))
      ⊎ ((encrypt ≡ false) × (requires_encryption (env "REQUIRE_ENCRYPTED_RESPONSE") ≡ false))

  pub receive-reply_of :
      (T : Times Num) (env : Config) (encrypt : Bool) (aes_key iv : Bytes)
      (upstream : UpstreamResponse R)
      → IsReplyReadable T env encrypt aes_key iv upstream
      → receive R C env aes_key (record {
        status = 200;
        json = some (json_of_reply R C T (reply_of R C T encrypt aes_key iv upstream));
      })
        ≡ ok (some (shown_answer T upstream))
  unfolding reply_of
  receive-reply_of T env encrypt aes_key iv upstream (inl (sealed, o, json)) =
      rw sealed (receive-encrypted T env aes_key iv upstream o json)
  receive-reply_of T env encrypt aes_key iv upstream (inr (open_reply, allowed)) =
      rw open_reply (receive-plain T env aes_key upstream allowed)
