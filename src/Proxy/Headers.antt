-- ===== src/Proxy/Headers.antt =====
-- normalizeHeaders and sanitizeResponseHeaders of proxy/proxy.service.ts. The objects that they
-- build are ordered maps: a name that is set again keeps its place. That a plain object moves names
-- that are numbers to the front and treats `__proto__` apart is left out.
pub mod Safe
use encryption_gateway.Prelude.{
  ℕ, ◌+◌, ◌%◌, Text, codes, text_eq, List, [], ◌∷◌, ◌++◌, map, all, any, Option, none, some, Bool,
  false, not, ◌&&◌, ◌||◌, if◌then◌else◌, ◌==◌, leb, Result, ok, err, http, ◌>>=◌, ◌>>◌,
}
use encryption_gateway.JsText.{split_on, trim, starts_with, to_decimal}
use encryption_gateway.OrderedMap
use encryption_gateway.OrderedMap.{OrderedMap}
use encryption_gateway.Runtime.{
  Json, null, bool, num, str, arr, obj, items, entries, member, Runtime, string_of,
}
use encryption_gateway.TargetPolicy.{is_one_of}

abbrev pub blocked_headers : List Text
blocked_headers =
    codes "host"
    ∷ codes "connection"
    ∷ codes "keep-alive"
    ∷ codes "proxy-authorization"
    ∷ codes "proxy-authenticate"
    ∷ codes "proxy-connection"
    ∷ codes "te"
    ∷ codes "trailer"
    ∷ codes "transfer-encoding"
    ∷ codes "upgrade"
    ∷ codes "content-length"
    ∷ codes "expect"
    ∷ codes "forwarded"
    ∷ codes "x-real-ip"
    ∷ codes "cf-connecting-ip"
    ∷ codes "true-client-ip"
    ∷ codes "fastly-client-ip"
    ∷ []

-- HEADER_NAME
abbrev pub is_token : ℕ → Bool
is_token c =
    any (λ d. c == d) (codes "!#$%&'*+.^_`|~-")
    || ((leb b'0' c && leb c b'9') || ((leb b'A' c && leb c b'Z') || (leb b'a' c && leb c b'z')))

unfoldable pub is_header_name : Text → Bool
is_header_name [] = false
is_header_name (c ∷ s) = all is_token (c ∷ s)

-- HEADER_VALUE
abbrev pub is_visible : ℕ → Bool
is_visible c = c == 9 || ((leb 0x20 c && leb c 0x7e) || (leb 0x80 c && leb c 0xff))

unfoldable pub is_header_value : Text → Bool
is_header_value s = all is_visible s

-- The values of response headers.
pub data HeaderValue : Type 0 where
  one : Text → HeaderValue
  many : List Text → HeaderValue

module _ (R : Runtime) (lower : Text → Text) where
  open R use {Num}

  -- Object.entries of an array
  abbrev pub indexed : ℕ → List (Json Num) → List (Text × Json Num)
  indexed i [] = []
  indexed i (v ∷ vs) = (to_decimal i, v) ∷ indexed (i + 1) vs

  -- The names and values of an entry: the pair of Key and Value where both are there, all
  -- members else; nothing of what is no object.
  abbrev pub key_value :
      Option (Json Num) → Option (Json Num) → List (Text × Json Num) → List (Text × Json Num)
  key_value (some key) (some value) all_members = (string_of R key, value) ∷ []
  key_value _ _ all_members = all_members

  unfoldable pub pairs_of : Json Num → List (Text × Json Num)
  pairs_of (obj fs) = key_value (member (codes "Key") fs) (member (codes "Value") fs) (entries fs)
  pairs_of (arr vs) = indexed 0 (items vs)
  pairs_of _ = []

  abbrev pub all_pairs : List (Json Num) → List (Text × Json Num)
  all_pairs [] = []
  all_pairs (v ∷ vs) = pairs_of v ++ all_pairs vs

  -- Array.isArray(header) ? header : header ? [header] : []. Of values that are false, only those
  -- with no pairs are left out.
  unfoldable pub header_entries : Option (Json Num) → List (Json Num)
  header_entries none = []
  header_entries (some null) = []
  header_entries (some (arr vs)) = items vs
  header_entries (some v) = v ∷ []

  -- The names that Connection headers list.
  unfoldable pub connection_headers : List (Text × Json Num) → List Text
  connection_headers [] = []
  connection_headers ((name, value) ∷ rest) =
      let tokens = map (λ t. lower (trim t)) (split_on b',' (string_of R value)) in
      let more = connection_headers rest in
      if text_eq (lower name) (codes "connection") then tokens ++ more else more

  unfoldable pub is_blocked : List Text → Text → Bool
  is_blocked listed lower_name =
      is_one_of lower_name blocked_headers
      || (starts_with lower_name (codes "x-forwarded-") || is_one_of lower_name listed)

  -- add
  unfoldable pub add_header : List Text → Text → Text → OrderedMap Text → Result (OrderedMap Text)
  add_header listed name text headers =
      if not (is_header_name name && is_header_value text)
      then err (http 400 "Header is not valid")
      else if is_blocked listed (lower name)
      then ok headers
      else ok (OrderedMap.set name text headers)

  unfoldable pub add_pairs :
      List Text → List (Text × Json Num) → OrderedMap Text → Result (OrderedMap Text)
  add_pairs listed [] headers = ok headers
  add_pairs listed ((name, value) ∷ rest) headers = do
    added ← add_header listed name (string_of R value) headers
    add_pairs listed rest added

  unfoldable pub normalize_headers : Option (Json Num) → Result (OrderedMap Text)
  normalize_headers header =
      let pairs = all_pairs (header_entries header) in add_pairs (connection_headers pairs) pairs []

  abbrev pub dropped_headers : List Text
  dropped_headers =
      codes "transfer-encoding"
      ∷ codes "content-encoding"
      ∷ codes "connection"
      ∷ codes "keep-alive"
      ∷ codes "content-length"
      ∷ []

  -- Of a value that is no scalar and no array, nothing is kept.
  abbrev pub header_value : Json Num → Option HeaderValue
  header_value (arr vs) = some (many (map (string_of R) (items vs)))
  header_value (str t) = some (one t)
  header_value (num n) = some (one (string_of R (num n)))
  header_value (bool b) = some (one (string_of R (bool b)))
  header_value _ = none

  abbrev pub keep_header :
      Text → Option HeaderValue → OrderedMap HeaderValue → OrderedMap HeaderValue
  keep_header name none out = out
  keep_header name (some v) out = OrderedMap.set name v out

  unfoldable pub sanitize_from :
      OrderedMap HeaderValue → List (Text × Json Num) → OrderedMap HeaderValue
  sanitize_from out [] = out
  sanitize_from out ((key, value) ∷ rest) =
      sanitize_from
        (if is_one_of (lower key) dropped_headers
          then out
          else keep_header (lower key) (header_value value) out)
        rest

  -- `none` is a response with no headers.
  unfoldable pub sanitize_response_headers :
      Option (List (Text × Json Num)) → OrderedMap HeaderValue
  unfolding sanitize_from
  sanitize_response_headers none = []
  sanitize_response_headers (some headers) = sanitize_from [] headers
