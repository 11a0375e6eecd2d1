-- ===== src/Proxy/Controller/Gateway.antt =====
-- What the gateway has checked when it sends a request upstream.
use encryption_gateway.Prelude.{
  ℕ, Text, List, ◌∷◌, Option, Bool, Result, ok, err, ◌≡◌, ◌⊎◌, inl, inr, refl, ap, ◌∙◌,
}
use encryption_gateway.Exec.{continue, pure, state-continue, ◌>>=◌, ◌>>◌}
use encryption_gateway.Runtime.{Bytes, Runtime}
use encryption_gateway.Encryption.{Cipher, GatewayRequest, ServerKey, decrypt}
use encryption_gateway.Encryption.Sealed.{IsSealed, decrypt_iff}
use encryption_gateway.Payload.{DecryptedPayload}
use encryption_gateway.Replay.{Times, assert_fresh}
use encryption_gateway.TargetPolicy.{Url}
use encryption_gateway.Proxy.Service.{UpstreamRequest, UpstreamResult, ProxyService}
use encryption_gateway.Proxy.Service.Sent.{IsPermitted, forward-IsPermitted}
use encryption_gateway.Proxy.Controller.{
  GatewayState, reply_of, assert_fresh_step, forward_step, handle_gateway,
}

module _ (R : Runtime) (C : Cipher) (T : Times R.Num) (lower upper : Text → Text)
    (pathname_of : Text → Option Text) (parse_url : Text → Option Url) where
  -- One request was sent upstream, for a payload that was sealed for a key of the server, passed the
  -- replay check and permits it.
  pub record IsSent (keys : List (ServerKey R C)) (service : ProxyService R) (now : ℕ)
      (dto : GatewayRequest) (s t : GatewayState R C T) : Type 0 where
    pub payload : DecryptedPayload R.Num
    pub aes_key : Bytes
    pub request : UpstreamRequest R
    pub sealed : IsSealed R C keys dto payload aes_key
    pub fresh : (assert_fresh T payload now s.replay).0 ≡ ok tt
    pub permitted : IsPermitted R lower upper pathname_of parse_url service payload request
    pub sent_is : t.sent ≡ request ∷ s.sent

  module _ (encrypt : Bool) (keys : List (ServerKey R C)) (service : ProxyService R)
      (client : UpstreamRequest R → UpstreamResult R) (now : ℕ) (iv : Bytes) (dto : GatewayRequest)
      (s : GatewayState R C T) where
    -- Nothing was sent, or one request was.
    abbrev IsSafe : GatewayState R C T → Type 0
    IsSafe t = (t.sent ≡ s.sent) ⊎ IsSent keys service now dto s t

    module _ (payload : DecryptedPayload R.Num) (aes_key : Bytes)
        (opened : decrypt R C keys dto ≡ ok (payload, aes_key)) where
      forward_step-IsSafe :
          (t : GatewayState R C T)
          → t.sent ≡ s.sent
          → (assert_fresh T payload now s.replay).0 ≡ ok tt
          → IsSafe (forward_step R C T lower upper pathname_of parse_url service client payload t).1
      unfolding forward_step
      forward_step-IsSafe t same fresh =
          elim (forward-IsPermitted R lower upper pathname_of parse_url service client payload
            t.sent) [
              | inl (e, failed) ↦ inl (ap (λ r. r.1) failed ∙ same)
              | inr (request, permitted, sends) ↦ inr (record {
                payload = payload;
                aes_key = aes_key;
                request = request;
                sealed = (decrypt_iff R C keys dto payload aes_key).0 opened;
                fresh = fresh;
                permitted = permitted;
                sent_is = ap (λ r. r.1) sends ∙ ap (λ l. request ∷ l) same;
              })
            ]

      continue-IsSafe :
          (r : Result (Unit {0})) (t : GatewayState R C T)
          → t.sent ≡ s.sent
          → (assert_fresh T payload now s.replay).0 ≡ r
          → IsSafe
              (continue r
                (λ u.
                  forward_step R C T lower upper pathname_of parse_url service client payload
                  >>= λ upstream. pure (reply_of R C T encrypt aes_key iv upstream))
                t).1
      continue-IsSafe (err e) t same fresh = inl same
      continue-IsSafe (ok u) t same fresh =
          rw (state-continue _ (λ upstream. ok (reply_of R C T encrypt aes_key iv upstream)) _)
            (forward_step-IsSafe t same fresh)

    opened-IsSafe :
        (r : Result (DecryptedPayload R.Num × Bytes))
        → decrypt R C keys dto ≡ r
        → IsSafe
            (continue r
              (λ opened.
                assert_fresh_step R C T now opened.0
                >> (forward_step R C T lower upper pathname_of parse_url service client opened.0
                    >>= λ upstream. pure (reply_of R C T encrypt opened.1 iv upstream)))
              s).1
    unfolding assert_fresh_step
    opened-IsSafe (err e) h = inl refl
    opened-IsSafe (ok (payload, aes_key)) h =
        continue-IsSafe payload aes_key h (assert_fresh T payload now s.replay).0 _ refl refl

  -- Handling a gateway request sends nothing upstream, or it sends one request: then the
  -- gateway request was sealed for a key of the server, its payload passed the replay check at
  -- this time, and the request that was sent is one that the policy and the rules for headers
  -- permit for this payload.
  pub handle_gateway-IsSent :
      (encrypt : Bool) (keys : List (ServerKey R C)) (service : ProxyService R)
      (client : UpstreamRequest R → UpstreamResult R) (now : ℕ) (iv : Bytes) (dto : GatewayRequest)
      (s : GatewayState R C T)
      → ((handle_gateway R C T lower upper pathname_of parse_url encrypt keys service client now iv
            dto s).1.sent
          ≡ s.sent)
        ⊎ IsSent keys service now dto s
            (handle_gateway R C T lower upper pathname_of parse_url encrypt keys service client now
              iv dto s).1
  unfolding handle_gateway
  handle_gateway-IsSent encrypt keys service client now iv dto s =
      opened-IsSafe encrypt keys service client now iv dto s (decrypt R C keys dto) refl
