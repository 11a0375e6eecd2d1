-- ===== src/Proxy/Service.antt =====
-- forward and validateAndBuildUrl of proxy/proxy.service.ts. The HTTP client is a parameter that
-- answers a request; the requests that were made are kept, the latest first. The URL parser and
-- the case mapping of strings are parameters.
pub mod Sent
pub mod Setup
use encryption_gateway.Prelude.{
  ℕ, Text, codes, text_eq, List, [], ◌∷◌, Option, none, some, Bool, true, false, not, ◌&&◌, ◌||◌,
  if◌then◌else◌, Result, ok, err, http, guard, ◌>>=◌, ◌>>◌,
}
use encryption_gateway.OrderedMap.{OrderedMap}
use encryption_gateway.Runtime.{Json, null, str, arr, obj, Fields, Runtime}
use encryption_gateway.Payload.{DecryptedPayload, normalize_request_body, validate_parameter_object}
use encryption_gateway.TargetPolicy.{Url, Rule, allowed_methods, is_one_of, assert_allowed}
use encryption_gateway.Proxy.Headers.{HeaderValue, normalize_headers, sanitize_response_headers}

module _ (R : Runtime) where
  open R use {Num, parse}

  -- What the service passes to the HTTP client.
  pub record UpstreamRequest : Type 0 where
    pub url : Url
    pub method : Text
    pub headers : OrderedMap Text
    pub body : Option (Json Num)
    pub params : Option (Fields Num)
    pub timeout : ℕ
    pub max_content_length : ℕ
    pub max_redirects : ℕ

  -- A response, or the code of an error where it has one.
  pub data UpstreamResult : Type 0 where
    response :
        (status : Num) (body : Json Num) (headers : Option (List (Text × Json Num)))
        → UpstreamResult
    failure : Option Text → UpstreamResult

  pub record UpstreamResponse : Type 0 where
    pub status : Num
    pub body : Json Num
    pub headers : OrderedMap HeaderValue

  -- The fields that the constructor sets.
  pub record ProxyService : Type 0 where
    pub rules : List Rule
    pub allow_http : Bool
    pub timeout_ms : ℕ
    pub max_response_bytes : ℕ

  -- method || 'GET'
  abbrev pub method_or_get : Option Text → Text
  method_or_get none = codes "GET"
  method_or_get (some []) = codes "GET"
  method_or_get (some (c ∷ cs)) = c ∷ cs

  -- Body != null && Body !== ''
  abbrev pub has_body : Option (Json Num) → Bool
  has_body none = false
  has_body (some null) = false
  has_body (some (str [])) = false
  has_body (some _) = true

  abbrev pub body_of : Option (Json Num) → Json Num
  body_of none = null
  body_of (some v) = v

  unfoldable pub request_body : Text → Option (Json Num) → Result (Option (Json Num))
  request_body method body =
      if has_body body && not (is_one_of method (codes "GET" ∷ []))
      then normalize_request_body R (body_of body) >>= (λ v. ok (some v))
      else ok none

  -- The `catch` around the check of a parsed string.
  abbrev pub params_of : Result (Fields Num) → Result (Option (Fields Num))
  params_of (ok fs) = ok (some fs)
  params_of (err e) = err (http 400 "Parameter must be valid JSON object data")

  abbrev pub parsed_params : Option (Json Num) → Result (Option (Fields Num))
  parsed_params none = err (http 400 "Parameter must be valid JSON object data")
  parsed_params (some v) = params_of (validate_parameter_object R v)

  unfoldable pub request_params : Option (Json Num) → Result (Option (Fields Num))
  request_params (some (str (c ∷ cs))) = parsed_params (parse (c ∷ cs))
  request_params (some (obj fs)) = validate_parameter_object R (obj fs) >>= (λ v. ok (some v))
  request_params (some (arr vs)) = validate_parameter_object R (arr vs) >>= (λ v. ok (some v))
  request_params _ = ok none

  module _ (lower upper : Text → Text) (pathname_of : Text → Option Text)
      (parse_url : Text → Option Url) where
    unfoldable pub validate_and_build_url : Bool → Text → Result Url
    validate_and_build_url allow_http access_point = elim (parse_url access_point) [
      | none ↦ err (http 400 "AccessPoint must be a valid absolute URL")
      | some url ↦
          if text_eq url.protocol (codes "https:")
            || (allow_http && text_eq url.protocol (codes "http:"))
          then ok url
          else err (http 400 "AccessPoint protocol is not allowed")
    ]

    -- From the payload to the call of the HTTP client.
    unfoldable pub build_request : ProxyService → DecryptedPayload Num → Result UpstreamRequest
    build_request s payload = do
      guard (is_one_of (upper (method_or_get payload.method)) allowed_methods)
          (http 400 "Method is not allowed")
      url ← validate_and_build_url s.allow_http payload.access_point
      assert_allowed lower upper pathname_of s.rules (upper (method_or_get payload.method)) url
      headers ← normalize_headers R lower payload.header
      body ← request_body (upper (method_or_get payload.method)) payload.body
      params ← request_params payload.parameter
      ok (record {
        url = url;
        method = upper (method_or_get payload.method);
        headers = headers;
        body = body;
        params = params;
        timeout = s.timeout_ms;
        max_content_length = s.max_response_bytes;
        max_redirects = 0;
      })

    unfoldable pub answer : UpstreamResult → Result UpstreamResponse
    answer (response status body headers) = ok (record {
      status = status;
      body = body;
      headers = sanitize_response_headers R lower headers;
    })
    answer (failure none) = err (http 502 "Failed to reach upstream API")
    answer (failure (some code)) =
        if text_eq code (codes "ECONNABORTED") || text_eq code (codes "ETIMEDOUT")
        then err (http 504 "Upstream API timed out")
        else err (http 502 "Failed to reach upstream API")

    unfoldable pub send :
        (UpstreamRequest → UpstreamResult)
        → Result UpstreamRequest
        → List UpstreamRequest
        → Result UpstreamResponse × List UpstreamRequest
    send client (err e) sent = (err e, sent)
    send client (ok request) sent = (answer (client request), request ∷ sent)

    unfoldable pub forward :
        ProxyService
        → (UpstreamRequest → UpstreamResult)
        → DecryptedPayload Num
        → List UpstreamRequest
        → Result UpstreamResponse × List UpstreamRequest
    forward s client payload sent = send client (build_request s payload) sent
