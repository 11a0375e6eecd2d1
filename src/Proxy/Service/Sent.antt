-- ===== src/Proxy/Service/Sent.antt =====
-- What the gateway sends upstream.
use encryption_gateway.Prelude.{
  Text, codes, text_eq_iff, List, ◌∷◌, All, Option, some, Bool, true, false, Result, ok, err, http,
  guard, ◌≡◌, ◌⊎◌, inl, inr, refl, arith, >>=-eq-ok, subst, Failure,
}
use encryption_gateway.Runtime.{Runtime}
use encryption_gateway.Payload.{DecryptedPayload}
use encryption_gateway.TargetPolicy.{
  Url, allowed_methods, is_one_of, has_encoded_slash, assert_allowed,
}
use encryption_gateway.TargetPolicy.Allowed.{Any, Matches, assert_allowed_iff}
use encryption_gateway.Proxy.Headers.{
  normalize_headers, connection_headers, all_pairs, header_entries,
}
use encryption_gateway.Proxy.Headers.Safe.{
  IsForwardable, IsUnlisted, normalize_headers-IsForwardable, forwardable-IsUnlisted,
}
use encryption_gateway.Proxy.Service.{
  UpstreamRequest, UpstreamResult, ProxyService, method_or_get, request_body, request_params,
  validate_and_build_url, build_request, answer, send, forward,
}

module _ (R : Runtime) (lower upper : Text → Text) (pathname_of : Text → Option Text)
    (parse_url : Text → Option Url) where
  open R use {Num}

  -- A request that the gateway may make for a payload.
  pub record IsPermitted (s : ProxyService R) (payload : DecryptedPayload Num)
      (request : UpstreamRequest R) : Type 0 where
    pub url_is : parse_url payload.access_point ≡ some request.url
    pub protocol_ok :
        (request.url.protocol ≡ codes "https:")
        ⊎ ((s.allow_http ≡ true) × (request.url.protocol ≡ codes "http:"))
    pub method_is : request.method ≡ upper (method_or_get R payload.method)
    pub method_ok : is_one_of request.method allowed_methods ≡ true
    pub path_ok : has_encoded_slash request.url.pathname ≡ false
    pub target_ok :
        Any (Matches request.method (lower request.url.host) request.url.pathname) s.rules
    pub headers_ok :
        All
          (IsForwardable R lower (
            connection_headers R lower (all_pairs R lower (header_entries R lower payload.header))))
          request.headers
    pub unlisted :
        All
          (λ e.
            All
              (IsUnlisted R lower (lower e.0))
              (all_pairs R lower (header_entries R lower payload.header)))
          request.headers
    pub no_redirects : request.max_redirects ≡ 0

  url_sound :
      (allow_http : Bool) (access_point : Text) (url : Url)
      → validate_and_build_url R lower upper pathname_of parse_url allow_http access_point ≡ ok url
      → (parse_url access_point ≡ some url)
        × ((url.protocol ≡ codes "https:") ⊎ ((allow_http ≡ true) × (url.protocol ≡ codes "http:")))
  unfolding validate_and_build_url
  url_sound allow_http access_point url h =
      ground
        (arith, text_eq_iff url.protocol (codes "https:"), text_eq_iff url.protocol (codes "http:"))

  pub build_request-IsPermitted :
      (s : ProxyService R) (payload : DecryptedPayload Num) (request : UpstreamRequest R)
      → build_request R lower upper pathname_of parse_url s payload ≡ ok request
      → IsPermitted s payload request
  unfolding build_request
  build_request-IsPermitted s payload request h =
      let (u1, known, h1) =
        >>=-eq-ok
          (guard (is_one_of (upper (method_or_get R payload.method)) allowed_methods)
            (http 400 "Method is not allowed"))
          _ h in
      let (url, built, h2) =
        >>=-eq-ok
          (validate_and_build_url R lower upper pathname_of parse_url s.allow_http
            payload.access_point)
          _ h1 in
      let (u2, allowed, h3) =
        >>=-eq-ok
          (assert_allowed lower upper pathname_of s.rules (upper (method_or_get R payload.method))
            url)
          _ h2 in
      let (headers, normal, h4) = >>=-eq-ok (normalize_headers R lower payload.header) _ h3 in
      let (body, b, h5) =
        >>=-eq-ok (request_body R (upper (method_or_get R payload.method)) payload.body) _ h4 in
      let (params, p, last) = >>=-eq-ok (request_params R payload.parameter) _ h5 in
      let made : record {
        url = url;
        method = upper (method_or_get R payload.method);
        headers = headers;
        body = body;
        params = params;
        timeout = s.timeout_ms;
        max_content_length = s.max_response_bytes;
        max_redirects = 0;
      }
          ≡ request =
        ground (arith, last) in
      let (parsed, protocol) = url_sound s.allow_http payload.access_point url built in
      let (clean, target) =
        (assert_allowed_iff lower upper pathname_of s.rules (upper (method_or_get R payload.method))
            url).0
          allowed in
      subst (IsPermitted s payload) made (record {
        url_is = parsed;
        protocol_ok = protocol;
        method_is = refl;
        method_ok = ground (arith, known);
        path_ok = clean;
        target_ok = target;
        headers_ok = normalize_headers-IsForwardable R lower payload.header headers normal;
        unlisted =
            forwardable-IsUnlisted R lower
              (all_pairs R lower (header_entries R lower payload.header)) headers
              (normalize_headers-IsForwardable R lower payload.header headers normal);
        no_redirects = refl;
      })

  -- Forwarding a payload either fails and sends nothing, or sends one request, whose answer it
  -- returns, and that request is permitted: the URL is that of AccessPoint, with the protocol
  -- https, or http where the configuration allows it, the method is an allowed one, a rule of the
  -- policy matches the method and the URL, whose path holds no encoded slash, and redirects are
  -- not followed; each header has the form of a header name and of a header value, and its name is
  -- not blocked, does not start with `x-forwarded-` and is none of the parts between the commas,
  -- trimmed and in lower case, of a Connection header of the payload.
  pub forward-IsPermitted :
      (s : ProxyService R) (client : UpstreamRequest R → UpstreamResult R)
      (payload : DecryptedPayload Num) (sent : List (UpstreamRequest R))
      → ((e : Failure) × (forward R lower upper pathname_of parse_url s client payload sent
            ≡ (err e, sent)))
        ⊎ ((request : UpstreamRequest R) × IsPermitted s payload request
            × (forward R lower upper pathname_of parse_url s client payload sent
                ≡ (answer R lower upper pathname_of parse_url (client request), request ∷ sent)))
  unfolding forward send
  forward-IsPermitted s client payload sent =
      by_request (build_request R lower upper pathname_of parse_url s payload) refl
    where
      by_request :
          (r : Result (UpstreamRequest R))
          → build_request R lower upper pathname_of parse_url s payload ≡ r
          → ((e : Failure) × (send R lower upper pathname_of parse_url client r sent
                ≡ (err e, sent)))
            ⊎ ((request : UpstreamRequest R) × IsPermitted s payload request
                × (send R lower upper pathname_of parse_url client r sent ≡ (
                  answer R lower upper pathname_of parse_url (client request),
                  request ∷ sent,
                )))
      by_request (err e) h = inl (e, refl)
      by_request (ok request) h = inr (request, build_request-IsPermitted s payload request h, refl)
