-- ===== src/App.antt =====
-- app.module.ts: the rate limit stands before every handler, here before that of the gateway route.
-- A request is served as a whole: the handler has changed the state, the request to the upstream API
-- included, before it first waits.
pub mod Limited
use encryption_gateway.Prelude.{
  ℕ, Text, List, Option, none, some, Bool, true, false, if◌then◌else◌, err, http,
}
use encryption_gateway.Exec.{Exec}
use encryption_gateway.Runtime.{Bytes, Runtime}
use encryption_gateway.ClientIp.{client_ip_key}
use encryption_gateway.RateLimit
use encryption_gateway.RateLimit.{RateLimit, Verdict, or_else}
use encryption_gateway.Encryption.{Cipher, GatewayRequest, ServerKey}
use encryption_gateway.Replay.{Times}
use encryption_gateway.TargetPolicy.{Url}
use encryption_gateway.Proxy.Service.{UpstreamRequest, UpstreamResult, ProxyService}
use encryption_gateway.Proxy.Controller.{GatewayState, Reply, handle_gateway}

-- The addresses that the guard reads, the times of the guard and of the handler, the random bytes of
-- the reply, and the body.
pub record HttpRequest : Type 0 where
  pub ip : Option Text
  pub remote_address : Option Text
  pub at : ℕ
  pub now : ℕ
  pub iv : Bytes
  pub dto : GatewayRequest

-- A route that is exempt is let through.
abbrev pub lets_through : Option Verdict → Bool
lets_through none = true
lets_through (some v) = v.is_allowed

abbrev pub client_of : (lower : Text → Text) (is_ip : Text → ℕ) → HttpRequest → Text
client_of lower is_ip r = client_ip_key lower is_ip (or_else r.ip r.remote_address)

module _ (R : Runtime) (C : Cipher) (T : Times R.Num) where
  pub record App : Type 0 where
    pub rate : RateLimit
    pub gateway : GatewayState R C T

  module _ (lower upper : Text → Text) (is_ip : Text → ℕ) (pathname_of : Text → Option Text)
      (parse_url : Text → Option Url) where
    unfoldable pub serve :
        Bool
        → List (ServerKey R C)
        → ProxyService R
        → (UpstreamRequest R → UpstreamResult R)
        → HttpRequest
        → Exec App (Reply R C T)
    serve encrypt keys service client r s =
        let (verdict, rate) =
          RateLimit.can_activate lower is_ip false r.ip r.remote_address r.at s.rate in
        let (reply, gateway) =
          handle_gateway R C T lower upper pathname_of parse_url encrypt keys service client r.now
            r.iv r.dto s.gateway in
        if lets_through verdict then (reply, record { rate = rate; gateway = gateway }) else (
          err (http 429 "ThrottlerException: Too Many Requests"),
          record { rate = rate; gateway = s.gateway },
        )
