-- ===== src/Main.antt =====
-- main.ts: what `bootstrap` sets on the application before it listens. Its environment is that of
-- the process, `none` for a variable that is not set. Creating the application and listening are
-- calls of NestJS.
use encryption_gateway.Prelude.{
  ℕ, Text, codes, text_eq, List, [], ◌∷◌, map, filter, Option, none, some, Bool, true, false, not,
  ◌||◌, if◌then◌else◌, ltb, Result, ok, err, crash, ◌>>=◌, ◌≡◌, ◌≤◌, ◌↔◌, ◌⊎◌, arith,
}
use encryption_gateway.JsText.{is_given, trim, is_digits, parse_decimal, split_on}
use encryption_gateway.Config.{Config, is_unset, text_of}

pub data TrustProxy : Type 0 where
  flag : Bool → TrustProxy
  hops : ℕ → TrustProxy
  preset : Text → TrustProxy

-- A hop count is a number of JavaScript: this is its value where it is a safe integer.
unfoldable pub parse_trust_proxy : Text → TrustProxy
parse_trust_proxy value =
    if text_eq value (codes "true")
    then flag true
    else if text_eq value (codes "false")
    then flag false
    else if is_digits value
    then hops (parse_decimal value)
    else preset value

-- The headers that every response gets.
abbrev pub security_headers : List (Text × Text)
security_headers =
    (codes "X-Content-Type-Options", codes "nosniff")
    ∷ (codes "X-Frame-Options", codes "DENY")
    ∷ (codes "Referrer-Policy", codes "no-referrer")
    ∷ (codes "Permissions-Policy", codes "camera=(), microphone=(), geolocation=()")
    ∷ (codes "Content-Security-Policy", codes "default-src 'none'; frame-ancestors 'none'")
    ∷ (codes "Cross-Origin-Opener-Policy", codes "same-origin")
    ∷ (codes "Cross-Origin-Resource-Policy", codes "same-origin")
    ∷ (codes "Strict-Transport-Security", codes "max-age=31536000; includeSubDomains")
    ∷ []

unfoldable pub parse_port : Option Text → Result ℕ
parse_port value =
    let raw = text_of value in
    if is_unset value
    then ok 3000
    else if not (is_digits raw) || (ltb (parse_decimal raw) 1 || ltb 65535 (parse_decimal raw))
    then err (crash "PORT must be an integer between 1 and 65535")
    else ok (parse_decimal raw)

-- The options of the validation pipe, and what depends on the environment: `none` leaves the
-- setting as it is.
pub record Application : Type 0 where
  pub powered_by : Bool
  pub headers : List (Text × Text)
  pub trust_proxy : Option TrustProxy
  pub body_limit : Text
  pub whitelist : Bool
  pub forbid_non_whitelisted : Bool
  pub cors_origins : Option (List Text)
  pub port : ℕ

-- value || fallback
abbrev text_or : Option Text → Text → Text
text_or none fallback = fallback
text_or (some []) fallback = fallback
text_or (some (c ∷ s)) fallback = c ∷ s

unfoldable pub trust_proxy_of : Option Text → Option TrustProxy
unfolding parse_trust_proxy
trust_proxy_of none = none
trust_proxy_of (some []) = none
trust_proxy_of (some (c ∷ s)) = some (parse_trust_proxy (c ∷ s))

abbrev some_origins : List Text → Option (List Text)
some_origins [] = none
some_origins (o ∷ os) = some (o ∷ os)

unfoldable pub cors_origins_of : Option Text → Option (List Text)
cors_origins_of none = none
cors_origins_of (some raw) = some_origins (filter is_given (map trim (split_on b',' raw)))

unfoldable pub bootstrap : Config → Result Application
bootstrap env = do
  port ← parse_port (env "PORT")
  ok (record {
    powered_by = false;
    headers = security_headers;
    trust_proxy = trust_proxy_of (env "TRUST_PROXY");
    body_limit = text_or (env "MAX_BODY_SIZE") (codes "1mb");
    whitelist = true;
    forbid_non_whitelisted = true;
    cors_origins = cors_origins_of (env "CORS_ORIGINS");
    port = port;
  })

-- The application listens on 3000 if PORT is not set or blank, and else on the port that PORT has
-- in decimal digits, from 1 to 65535; there is no other way to start.
pub parse_port_iff :
    (value : Option Text) (port : ℕ)
    → (parse_port value ≡ ok port) ↔ (
        ((is_unset value ≡ true) × (port ≡ 3000))
        ⊎ ((is_unset value ≡ false)
            × (is_digits (text_of value) ≡ true)
            × (parse_decimal (text_of value) ≡ port)
            × (1 ≤ port)
            × (port ≤ 65535)))
unfolding parse_port
parse_port_iff value port = ground arith
