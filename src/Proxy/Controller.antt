-- ===== src/Proxy/Controller.antt =====
-- The class ProxyController of proxy/proxy.controller.ts: what happens to a gateway request, from
-- its decryption to the reply. The time of the replay check and the random initialisation vector of
-- the reply are arguments.
pub mod Gateway
use encryption_gateway.Prelude.{
  ℕ, Text, codes, List, [], ◌∷◌, Option, Bool, true, false, if◌then◌else◌,
}
use encryption_gateway.Exec.{Exec, pure, lift, ◌>>=◌, ◌>>◌}
use encryption_gateway.OrderedMap.{OrderedMap}
use encryption_gateway.Runtime.{
  Bytes, Json, bool, num, str, arr, obj, Items, nil, cons, Fields, end, field, Runtime,
}
use encryption_gateway.Encryption.{
  Cipher, GatewayRequest, GatewayResponse, ServerKey, decrypt, encrypt_response,
}
use encryption_gateway.Payload.{DecryptedPayload}
use encryption_gateway.Replay.{Times, ReplayProtection, assert_fresh}
use encryption_gateway.TargetPolicy.{Url}
use encryption_gateway.Proxy.Headers.{HeaderValue, one, many}
use encryption_gateway.Proxy.Service.{
  UpstreamRequest, UpstreamResult, UpstreamResponse, ProxyService, forward,
}

module _ (R : Runtime) (C : Cipher) (T : Times R.Num) where
  open R use {Num}

  -- The replay cache, and the requests that were sent upstream.
  pub record GatewayState : Type 0 where
    pub replay : ReplayProtection
    pub sent : List (UpstreamRequest R)

  pub data Reply : Type 0 where
    encrypted : GatewayResponse → Reply
    plain : UpstreamResponse R → Reply

  abbrev pub json_items : List Text → Items Num
  json_items [] = nil
  json_items (t ∷ ts) = cons (str t) (json_items ts)

  abbrev pub json_of_header : HeaderValue → Json Num
  json_of_header (one t) = str t
  json_of_header (many ts) = arr (json_items ts)

  abbrev pub json_headers : OrderedMap HeaderValue → Fields Num
  json_headers [] = end
  json_headers ((name, v) ∷ rest) = field name (json_of_header v) (json_headers rest)

  -- { StatusCode, Headers, Data }
  unfoldable pub json_of_response : UpstreamResponse R → Json Num
  json_of_response upstream = obj (
      field (codes "StatusCode") (num upstream.status) (
        field (codes "Headers") (obj (json_headers upstream.headers))
          (field (codes "Data") upstream.body end)))

  unfoldable pub reply_of : Bool → Bytes → Bytes → UpstreamResponse R → Reply
  reply_of encrypt aes_key iv upstream =
      if encrypt
      then encrypted (encrypt_response R C (json_of_response upstream) aes_key iv)
      else plain upstream

  -- What is serialised for the client.
  unfoldable pub json_of_reply : Reply → Json Num
  unfolding json_of_response
  json_of_reply (encrypted r) = obj (
      field (codes "Encrypted") (bool true)
        (field (codes "IV") (str r.iv) (field (codes "Payload") (str r.payload) end)))
  json_of_reply (plain upstream) = obj (
      field (codes "Encrypted") (bool false) (
        field (codes "StatusCode") (num upstream.status) (
          field (codes "Headers") (obj (json_headers upstream.headers))
            (field (codes "Data") upstream.body end))))

  unfoldable pub assert_fresh_step : ℕ → DecryptedPayload Num → Exec GatewayState (Unit {0})
  assert_fresh_step now payload s =
      let (result, replay) = assert_fresh T payload now s.replay in
      (result, record s { replay = replay })

  module _ (lower upper : Text → Text) (pathname_of : Text → Option Text)
      (parse_url : Text → Option Url) where
    unfoldable pub forward_step :
        ProxyService R
        → (UpstreamRequest R → UpstreamResult R)
        → DecryptedPayload Num
        → Exec GatewayState (UpstreamResponse R)
    forward_step service client payload s =
        let (result, sent) =
          forward R lower upper pathname_of parse_url service client payload s.sent in
        (result, record s { sent = sent })

    unfoldable pub handle_gateway :
        Bool
        → List (ServerKey R C)
        → ProxyService R
        → (UpstreamRequest R → UpstreamResult R)
        → ℕ
        → Bytes
        → GatewayRequest
        → Exec GatewayState Reply
    handle_gateway encrypt keys service client now iv dto = do
      opened ← lift (decrypt R C keys dto)
      assert_fresh_step now opened.0
      upstream ← forward_step service client opened.0
      pure (reply_of encrypt opened.1 iv upstream)
