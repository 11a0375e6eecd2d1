-- ===== src/TargetPolicy.antt =====
-- proxy/target-policy.ts: which upstream requests the gateway may make. The parser of URLs and the
-- case mapping of strings are parameters. An Error at startup is `crash`, less the entry in its
-- message.
pub mod Allowed
use encryption_gateway.Prelude.{
  ℕ, ◌+◌, Text, codes, text_eq, List, [], ◌∷◌, ◌++◌, map, length, all, any, filter, take, drop,
  Option, none, some, Bool, true, false, not, ◌&&◌, ◌||◌, if◌then◌else◌, ◌==◌, leb, Result, ok, err,
  http, crash, guard, ◌>>=◌, ◌>>◌,
}
use encryption_gateway.JsText.{
  is_given, split_on, split_spaces, trim, starts_with, includes_text, includes_unit, index_of,
  ends_with_unit, without_last,
}

-- What the gateway reads of a URL object.
pub record Url : Type 0 where
  pub protocol : Text
  pub host : Text
  pub pathname : Text
  pub text : Text

pub record Rule : Type 0 where
  pub method : Text
  pub host : Text
  pub path : Text
  pub is_prefix : Bool
  pub source : Text

abbrev pub allowed_methods : List Text
allowed_methods = codes "GET" ∷ codes "POST" ∷ codes "PUT" ∷ codes "PATCH" ∷ codes "DELETE" ∷ []

abbrev pub is_one_of : Text → List Text → Bool
is_one_of t [] = false
is_one_of t (x ∷ xs) = text_eq x t || is_one_of t xs

-- rule.path.endsWith('/') ? rule.path : `${rule.path}/`
abbrev pub with_slash : Text → Text
with_slash path = if ends_with_unit b'/' path then path else path ++ (b'/' ∷ [])

unfoldable pub matches_path : Rule → Text → Bool
matches_path rule pathname =
    if not rule.is_prefix
    then text_eq pathname rule.path
    else if text_eq rule.path (codes "/")
    then true
    else if text_eq pathname rule.path
    then true
    else starts_with pathname (with_slash rule.path)

-- /%2f|%5c/i at the start of a text
abbrev pub is_encoded_slash : Text → Bool
is_encoded_slash (p ∷ d ∷ x ∷ s) =
    p == b'%'
    && ((d == b'2' && (x == b'f' || x == b'F')) || (d == b'5' && (x == b'c' || x == b'C')))
is_encoded_slash _ = false

unfoldable pub has_encoded_slash : Text → Bool
has_encoded_slash [] = false
has_encoded_slash (c ∷ s) = is_encoded_slash (c ∷ s) || has_encoded_slash s

unfoldable pub matches : Text → Text → Text → Rule → Bool
matches method host pathname rule =
    text_eq rule.host host
    && ((text_eq rule.method (codes "*") || text_eq rule.method method)
        && matches_path rule pathname)

abbrev pub is_empty : List Rule → Bool
is_empty [] = true
is_empty (rule ∷ rules) = false

abbrev pub describe : List Rule → List Text
describe rules = map (λ rule. rule.source) rules

-- raw.split(',').map((e) => e.trim()).filter(Boolean)
unfoldable pub split_list : Text → List Text
split_list raw = filter is_given (map trim (split_on b',' raw))

-- What stands before the first such unit, and the rest from it on.
abbrev pub span_until : ℕ → Text → Text × Text
span_until u [] = ([], [])
span_until u (c ∷ s) =
    let (before, rest) = span_until u s in if c == u then ([], c ∷ s) else (c ∷ before, rest)

abbrev pub is_digit : ℕ → Bool
is_digit c = leb b'0' c && leb c b'9'

abbrev pub is_letter_to : ℕ → ℕ → ℕ → Bool
is_letter_to last_lower last_upper c =
    (leb b'a' c && leb c last_lower) || (leb b'A' c && leb c last_upper)

-- (:\d{1,5})?$
unfoldable pub is_port : Text → Bool
is_port [] = true
is_port (c ∷ ds) = c == b':' && (leb 1 (length ds) && (leb (length ds) 5 && all is_digit ds))

-- [a-z0-9.-]+ and [0-9a-f:.]+, in either case
abbrev pub is_name : Text → Bool
is_name t =
    is_given t && all (λ c. is_letter_to b'z' b'Z' c || (is_digit c || (c == b'.' || c == b'-'))) t

abbrev pub is_ipv6 : Text → Bool
is_ipv6 t =
    is_given t && all (λ c. is_letter_to b'f' b'F' c || (is_digit c || (c == b':' || c == b'.'))) t

-- After the bracket of an IPv6 address.
abbrev pub is_port_after : Text → Bool
is_port_after [] = false
is_port_after (c ∷ s) = is_port s

abbrev pub is_bracketed : Text → Bool
is_bracketed [] = false
is_bracketed (c ∷ s) =
    let (address, rest) = span_until b']' s in c == b'[' && (is_ipv6 address && is_port_after rest)

unfoldable pub is_host : Text → Bool
unfolding is_port
is_host host =
    let (name, rest) = span_until b':' host in (is_name name && is_port rest) || is_bracketed host

-- text.replace(/:(443|80)$/, '')
unfoldable pub strip_default_port : Text → Text
strip_default_port [] = []
strip_default_port (c ∷ s) =
    let rest = strip_default_port s in
    if text_eq (c ∷ s) (codes ":443") || text_eq (c ∷ s) (codes ":80") then [] else c ∷ rest

module _ (lower upper : Text → Text) (pathname_of : Text → Option Text) where
  unfoldable pub assert_host : Text → Result Text
  unfolding is_host strip_default_port
  assert_host host = do
    guard (not (includes_text host (codes "://"))) (crash "remove the scheme (https://)")
    guard (is_host host) (crash "expected host or host:port")
    ok (strip_default_port (lower host))

  unfoldable pub parse_host_entry : Text → Result Rule
  unfolding assert_host
  parse_host_entry entry = do
    guard (not (includes_text entry (codes "://"))) (crash "remove the scheme (https://)")
    guard (not (includes_unit b'/' entry)) (crash "hosts only — put paths in ALLOWED_ROUTES")
    host ← assert_host entry
    ok (record {
      method = codes "*";
      host = host;
      path = codes "/";
      is_prefix = true;
      source = entry;
    })

  -- From the slash on: `*` may stand at the end only, and dot segments are resolved as in a URL.
  unfoldable pub parse_path : Text → Result (Text × Bool)
  parse_path raw_path =
      let is_prefix = ends_with_unit b'*' raw_path in
      do
        guard (not (includes_unit b'*' (without_last raw_path)))
            (crash "`*` is only allowed at the end")
        elim (pathname_of
            (codes "https://x" ++ (if is_prefix then without_last raw_path else raw_path))) [
              | none ↦ err (crash "Invalid URL")
              | some path ↦ ok (path, is_prefix)
            ]

  unfoldable pub parse_target : Text → Text → Text → Result Rule
  unfolding assert_host parse_path
  parse_target entry method target = do
    guard (text_eq method (codes "*") || is_one_of method allowed_methods)
        (crash "method must be one of GET/POST/PUT/PATCH/DELETE or *")
    guard (not (includes_text target (codes "://"))) (crash "remove the scheme (https://)")
    elim (index_of b'/' target) [
      | none ↦ err (crash "expected host/path, e.g. api.example.com/api/*")
      | some slash ↦ do
        guard (not (slash == 0)) (crash "expected host/path, e.g. api.example.com/api/*")
        host ← assert_host (take slash target)
        parsed ← parse_path (drop slash target)
        ok (record {
          method = method;
          host = host;
          path = parsed.0;
          is_prefix = parsed.1;
          source = entry;
        })
    ]

  -- entry.split(/\s+/) has one part at least.
  unfoldable pub parse_route_parts : Text → List Text → Result Rule
  unfolding parse_target
  parse_route_parts entry [] = err (crash "TypeError")
  parse_route_parts entry (target ∷ []) = parse_target entry (codes "*") target
  parse_route_parts entry (method ∷ target ∷ []) = parse_target entry (upper method) target
  parse_route_parts entry (_ ∷ _ ∷ _ ∷ _) = err (crash "expected [METHOD] host/path")

  unfoldable pub parse_route_entry : Text → Result Rule
  unfolding parse_route_parts
  parse_route_entry entry = parse_route_parts entry (split_spaces entry)

  unfoldable pub parse_entries : (Text → Result Rule) → List Text → Result (List Rule)
  parse_entries parse [] = ok []
  parse_entries parse (e ∷ es) = do
    rule ← parse e
    rules ← parse_entries parse es
    ok (rule ∷ rules)

  -- The constructor of TargetPolicy.
  unfoldable pub target_policy : Text → Text → Result (List Rule)
  unfolding split_list parse_entries parse_host_entry parse_route_entry
  target_policy allowed_hosts allowed_routes = do
    hosts ← parse_entries parse_host_entry (split_list allowed_hosts)
    routes ← parse_entries parse_route_entry (split_list allowed_routes)
    ok (hosts ++ routes)

  unfoldable pub assert_allowed : List Rule → Text → Url → Result (Unit {0})
  assert_allowed rules method url = do
    guard (not (has_encoded_slash url.pathname))
        (http 400 "AccessPoint path must not contain encoded slashes")
    guard (any (matches method (lower url.host) url.pathname) rules)
        (http 400 "Target is not in the allowed list")
