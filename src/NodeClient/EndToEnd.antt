-- ===== src/NodeClient/EndToEnd.antt =====
-- The Node.js client and the gateway together: from the environment to what is shown.
use encryption_gateway.Prelude.{ℕ, Text, List, length, Option, some, Bool, ok, ◌≡◌, refl}
use encryption_gateway.Runtime.{Bytes, Json, Runtime}
use encryption_gateway.Config.{Config}
use encryption_gateway.Encryption.{Cipher, GatewayRequest, ServerKey, seal, candidates}
use encryption_gateway.Encryption.Sealed.{IsUnwrapped, IsSealed, IsOpenable, decrypt_iff, open-seal}
use encryption_gateway.Payload.{DecryptedPayload, parse_payload}
use encryption_gateway.Replay.{Times, assert_fresh}
use encryption_gateway.TargetPolicy.{Url}
use encryption_gateway.Proxy.Service.{
  UpstreamRequest, UpstreamResult, UpstreamResponse, ProxyService, build_request, answer, send,
  forward,
}
use encryption_gateway.Proxy.Controller.{
  GatewayState, Reply, reply_of, json_of_reply, assert_fresh_step, forward_step, handle_gateway,
}
use encryption_gateway.NodeClient.{
  Fetched, ServerInfo, NodeTools, text_json, payload_of, body_of, get_server_key, NodeRequest,
  sealed_payload, seal_request, receive, prepare,
}
use encryption_gateway.NodeClient.Reply.{
  shown_answer, length-seal, IsReplyReadable, receive-reply_of,
}

module _ (R : Runtime) (C : Cipher) where
  open R use {Num, parse, stringify, to_base64, from_base64, utf8}

  -- The gateway has a key for what the client encrypts under the id that the client names: its first
  -- candidate that decrypts it gives the AES key back. AES-GCM opens what it sealed, and Base64,
  -- UTF-8 and JSON give back what was written.
  pub record IsReadable (keys : List (ServerKey R C)) (tools : NodeTools R C)
      (server : ServerInfo R C) (key_id : Option Text) (aes_key iv : Bytes) (value : Json Num)
      : Type 0 where
    pub encrypted_key : Bytes
    pub named : server.key_id ≡ text_json R C key_id
    pub encrypts : tools.public_encrypt server.pem aes_key ≡ some encrypted_key
    pub unwraps : IsUnwrapped R C encrypted_key aes_key (candidates R C key_id keys)
    pub key_size : length aes_key ≡ 32
    pub iv_size : length iv ≡ 12
    pub key_back : from_base64 (to_base64 encrypted_key) ≡ encrypted_key
    pub openable : IsOpenable R C (stringify value) aes_key iv
    pub json : parse (stringify value) ≡ some value

  module _ (keys : List (ServerKey R C)) (tools : NodeTools R C) (server : ServerInfo R C)
      (key_id : Option Text) (aes_key iv : Bytes) (value : Json Num)
      (r : IsReadable keys tools server key_id aes_key iv value) where
    -- What the script posts.
    abbrev posted : NodeRequest R C
    posted = record {
      key_id = text_json R C key_id;
      encrypted_key = to_base64 r.encrypted_key;
      iv = to_base64 iv;
      payload = to_base64 (seal R C (stringify value) aes_key iv);
    }

    -- What the gateway reads of it.
    abbrev arrived : GatewayRequest
    arrived = record {
      key_id = key_id;
      encrypted_key = posted.encrypted_key;
      iv = posted.iv;
      payload = posted.payload;
    }

    seal_request-posted : seal_request R C tools server value aes_key iv ≡ ok posted
    unfolding seal_request sealed_payload seal
    seal_request-posted = rw (r.encrypts, r.named) refl

    arrived-IsSealed :
        (payload : DecryptedPayload Num)
        → parse_payload R value ≡ ok payload
        → IsSealed R C keys arrived payload aes_key
    arrived-IsSealed payload accepted = record {
      json = stringify value;
      value = value;
      unwrapped = rw r.key_back r.unwraps;
      key_size = r.key_size;
      iv_size = rw r.openable.iv_back r.iv_size;
      tagged = rw r.openable.sealed_back (length-seal R C aes_key iv (stringify value) r.openable);
      authentic =
          rw (r.openable.sealed_back, r.openable.iv_back)
            (open-seal R C (stringify value) aes_key iv r.openable);
      parsed = r.json;
      accepted = accepted;
    }

  module _ (T : Times Num) (lower upper : Text → Text) (pathname_of : Text → Option Text)
      (parse_url : Text → Option Url) where
    -- What the Node.js client prepares from its environment, the gateway answers, and the client
    -- shows the upstream's answer: its status, its sanitized headers and its body. This is so when
    -- the environment names a body that is JSON and a key that the gateway has, the gateway accepts
    -- the payload, it is fresh, the policy permits its request, the upstream answers, and the reply
    -- is sealed, or plain where the environment allows that.
    pub receive-prepare :
        (keys : List (ServerKey R C)) (tools : NodeTools R C) (env : Config)
        (fetched : Option (Fetched Num)) (body : Json Num) (server : ServerInfo R C)
        (key_id : Option Text) (aes_key iv iv2 : Bytes) (encrypt : Bool) (service : ProxyService R)
        (send_request : UpstreamRequest R → UpstreamResult R) (now : ℕ) (s : GatewayState R C T)
        (payload : DecryptedPayload Num) (request : UpstreamRequest R)
        (upstream : UpstreamResponse R)
        → IsReadable keys tools server key_id aes_key iv (payload_of R C env body)
        → body_of R C env ≡ ok body
        → get_server_key R C tools env fetched ≡ ok server
        → parse_payload R (payload_of R C env body) ≡ ok payload
        → (assert_fresh T payload now s.replay).0 ≡ ok tt
        → build_request R lower upper pathname_of parse_url service payload ≡ ok request
        → answer R lower upper pathname_of parse_url (send_request request) ≡ ok upstream
        → IsReplyReadable R C T env encrypt aes_key iv2 upstream
        → (posted_request : NodeRequest R C) × (reply : Reply R C T) × (prepare R C tools env
              fetched aes_key iv
            ≡ ok posted_request)
          × ((handle_gateway R C T lower upper pathname_of parse_url encrypt keys service
                send_request now iv2
                (record {
                  key_id = key_id;
                  encrypted_key = posted_request.encrypted_key;
                  iv = posted_request.iv;
                  payload = posted_request.payload;
                })
                s).0
              ≡ ok reply)
          × (posted_request.key_id ≡ text_json R C key_id)
          × (receive R C env aes_key
                (record { status = 200; json = some (json_of_reply R C T reply) })
              ≡ ok (some (shown_answer R C T upstream)))
    unfolding prepare handle_gateway assert_fresh_step forward_step forward send
    receive-prepare keys tools env fetched body server key_id aes_key iv iv2 encrypt service
          send_request now s payload request upstream r read_body read_key accepted fresh built
          answered readable =
        let value = payload_of R C env body in
        let sealed =
          arrived-IsSealed keys tools server key_id aes_key iv value r payload accepted in
        (
          posted keys tools server key_id aes_key iv value r,
          reply_of R C T encrypt aes_key iv2 upstream,
          rw (read_body, read_key)
              (seal_request-posted keys tools server key_id aes_key iv value r),
          (rw ((decrypt_iff R C keys _ payload aes_key).1 sealed, fresh, built, answered) refl),
          refl,
          receive-reply_of R C T env encrypt aes_key iv2 upstream readable,
        )
