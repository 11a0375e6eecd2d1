-- ===== src/App/Limited.antt =====
-- How many upstream requests one client can cause in a window of the rate limit.
use encryption_gateway.Prelude.{
  one_if, ℕ, ◌+◌, ◌-◌, ◌≤◌, ◌<◌, Text, text_eq, List, [], ◌∷◌, length, map, All, Option, Bool,
  if◌then◌else◌, ◌≡◌, ◌≢◌, arith, inl, inr, ap,
}
use encryption_gateway.OrderedMap
use encryption_gateway.OrderedMap.{IsDistinct}
use encryption_gateway.Runtime.{Runtime}
use encryption_gateway.RateLimit
use encryption_gateway.RateLimit.{overflow, count_client}
use encryption_gateway.RateLimit.Windows.{IsClosed, allowed_of, window_limit}
use encryption_gateway.Encryption.{Cipher, ServerKey}
use encryption_gateway.Replay.{Times}
use encryption_gateway.TargetPolicy.{Url}
use encryption_gateway.Proxy.Service.{UpstreamRequest, UpstreamResult, ProxyService}
use encryption_gateway.Proxy.Controller.{GatewayState, handle_gateway}
use encryption_gateway.Proxy.Controller.Gateway.{handle_gateway-IsSent}
use encryption_gateway.App.{HttpRequest, App, client_of, serve}

module _ (R : Runtime) (C : Cipher) (T : Times R.Num) (lower upper : Text → Text) (is_ip : Text → ℕ)
    (pathname_of : Text → Option Text) (parse_url : Text → Option Url) (encrypt : Bool)
    (keys : List (ServerKey R C)) (service : ProxyService R)
    (client : UpstreamRequest R → UpstreamResult R) where
  abbrev next : HttpRequest → App R C T → App R C T
  next r s = (serve R C T lower upper is_ip pathname_of parse_url encrypt keys service client r s).1

  -- Of a list of requests: how many upstream requests those of a client cause.
  abbrev pub sent_for : Text → List HttpRequest → App R C T → ℕ
  sent_for who [] s = 0
  sent_for who (r ∷ rs) s =
      (if text_eq (client_of lower is_ip r) who
        then length (next r s).gateway.sent - length s.gateway.sent
        else 0)
      + sent_for who rs (next r s)

  abbrev pub seen_by_guard : HttpRequest → Text × ℕ
  seen_by_guard r = (client_of lower is_ip r, r.at)

  length-handle_gateway :
      (r : HttpRequest) (s : GatewayState R C T)
      → length
          (handle_gateway R C T lower upper pathname_of parse_url encrypt keys service client r.now
            r.iv r.dto s).1.sent
        ≤ length s.sent + 1
  length-handle_gateway r s =
      elim (handle_gateway-IsSent R C T lower upper pathname_of parse_url encrypt keys service
        client r.now r.iv r.dto s) [
          | inl same ↦ omega (arith, ap length same)
          | inr sent ↦ omega (arith, ap length sent.sent_is)
        ]

  rate-next :
      (r : HttpRequest) (s : App R C T)
      → (next r s).rate ≡ (count_client (client_of lower is_ip r) r.at s.rate).1
  unfolding serve RateLimit.can_activate
  rate-next r s = ground arith

  length-next :
      (r : HttpRequest) (s : App R C T)
      → length (next r s).gateway.sent
        ≤ length s.gateway.sent
          + one_if (count_client (client_of lower is_ip r) r.at s.rate).0.is_allowed
  unfolding serve RateLimit.can_activate
  length-next r s = ground (arith, length-handle_gateway r s.gateway)

  sent_for_allowed :
      (who : Text) (rs : List HttpRequest) (s : App R C T)
      → sent_for who rs s ≤ allowed_of who (map seen_by_guard rs) s.rate
  sent_for_allowed who [] s = omega arith
  sent_for_allowed who (r ∷ rs) s =
      let rest = sent_for_allowed who rs (next r s) in
      let rate = rate-next r s in ground (arith, length-next r s, rate, rest)

  -- A client without an open window, whose key is not that of the overflow bucket, makes a request
  -- while the rate limit's map, whose keys are distinct, has room to spare. Of this request and of
  -- all later ones before the end of the window that it opens, in any mix with those of other
  -- clients, the client's cause no more requests to an upstream API than the limit.
  pub sent_limit :
      (first : HttpRequest) (rs : List HttpRequest) (s : App R C T)
      → IsDistinct s.rate.hits
      → overflow ≢ client_of lower is_ip first
      → IsClosed first.at (OrderedMap.get (client_of lower is_ip first) s.rate.hits)
      → length s.rate.hits + 1 < s.rate.max_entries
      → All (λ q. q.1 < first.at + s.rate.ttl_ms) (map seen_by_guard rs)
      → sent_for (client_of lower is_ip first) (first ∷ rs) s ≤ s.rate.limit
  sent_limit first rs s distinct apart closed room early =
      let who = client_of lower is_ip first in
      let few = sent_for_allowed who (first ∷ rs) s in
      let limited =
        window_limit who first.at (map seen_by_guard rs) s.rate distinct apart closed room early in
      ground (arith, few, limited)
