-- ===== src/Proxy/Service/Setup.antt =====
-- The constructor of ProxyService, and the service that it makes of an empty configuration.
use encryption_gateway.Prelude.{
  Text, Option, none, false, Result, ok, ◌>>=◌, [], ◌≡◌, List, ap, arith, inl, inr, subst,
}
use encryption_gateway.Config.{Config, positive_integer, strict_boolean, text_of}
use encryption_gateway.Runtime.{Runtime}
use encryption_gateway.TargetPolicy.{target_policy}
use encryption_gateway.Payload.{DecryptedPayload}
use encryption_gateway.JsText.{split_on, trim, trim_start}
use encryption_gateway.TargetPolicy.{Url, split_list, parse_entries}
use encryption_gateway.TargetPolicy.Allowed.{Any}
use encryption_gateway.Proxy.Service.{ProxyService, UpstreamRequest, UpstreamResult, forward}
use encryption_gateway.Proxy.Service.Sent.{forward-IsPermitted}

-- A list that is not set is the default, ''.
unfoldable pub proxy_service :
    (R : Runtime) (lower upper : Text → Text) (pathname_of : Text → Option Text)
    → Config
    → Result (ProxyService R)
proxy_service R lower upper pathname_of config = do
  rules ←
      target_policy lower upper pathname_of (text_of (config "ALLOWED_TARGET_HOSTS"))
        (text_of (config "ALLOWED_ROUTES"))
  allow_http ← strict_boolean config "ALLOW_HTTP_UPSTREAM" false
  timeout_ms ← positive_integer config "UPSTREAM_TIMEOUT_MS" 15000
  max_response_bytes ← positive_integer config "MAX_UPSTREAM_RESPONSE_BYTES" 5242880
  ok (record {
    rules = rules;
    allow_http = allow_http;
    timeout_ms = timeout_ms;
    max_response_bytes = max_response_bytes;
  })

module _ (R : Runtime) (lower upper : Text → Text) (pathname_of : Text → Option Text)
    (parse_url : Text → Option Url) where
  unset-rules :
      (config : Config) (s : ProxyService R)
      → config "ALLOWED_TARGET_HOSTS" ≡ none
      → config "ALLOWED_ROUTES" ≡ none
      → proxy_service R lower upper pathname_of config ≡ ok s
      → s.rules ≡ []
  unfolding proxy_service target_policy split_list parse_entries split_on trim trim_start
  unset-rules config s hosts routes h = ground (arith, hosts, routes, h)

  -- A gateway without ALLOWED_TARGET_HOSTS and ALLOWED_ROUTES sends nothing upstream, whatever the
  -- payload is.
  pub forward-unset :
      (config : Config) (s : ProxyService R) (client : UpstreamRequest R → UpstreamResult R)
      (payload : DecryptedPayload R.Num) (sent : List (UpstreamRequest R))
      → config "ALLOWED_TARGET_HOSTS" ≡ none
      → config "ALLOWED_ROUTES" ≡ none
      → proxy_service R lower upper pathname_of config ≡ ok s
      → (forward R lower upper pathname_of parse_url s client payload sent).1 ≡ sent
  forward-unset config s client payload sent hosts routes h =
      elim (forward-IsPermitted R lower upper pathname_of parse_url s client payload sent) [
        | inl (e, failed) ↦ ap (λ r. r.1) failed
        | inr (request, permitted, sends) ↦
            absurd (subst (Any _) (unset-rules config s hosts routes h) permitted.target_ok)
      ]
