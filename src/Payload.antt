-- ===== src/Payload.antt =====
-- common/payload.ts: the check of the decrypted JSON. Each failure is 400 with the reason that
-- the message ends in, less the index of a header entry.
pub mod Depth
pub mod Accepted
use encryption_gateway.Prelude.{
  ℕ, ◌+◌, Text, codes, List, [], ◌∷◌, length, any, Option, none, some, Bool, true, false, not, ◌||◌,
  if◌then◌else◌, ltb, Result, ok, err, Failure, http, guard, ◌>>=◌, ◌>>◌, String,
}
use encryption_gateway.Runtime.{
  Json, null, bool, num, str, arr, obj, Items, nil, cons, Fields, end, field, items, entries,
  member, Runtime, string_of,
}

-- The members that the gateway reads, as JSON.parse returned them; `none` is undefined. Of Method
-- null and undefined are one.
pub record DecryptedPayload (N : Type 0) : Type 0 where
  pub access_point : Text
  pub method : Option Text
  pub header : Option (Json N)
  pub body : Option (Json N)
  pub parameter : Option (Json N)
  pub nonce : Option (Json N)
  pub timestamp : Option (Json N)

-- new BadRequestException(`Invalid payload: ${reason}`)
abbrev pub invalid : String → Failure
invalid reason = http 400 reason

module _ {N : Type 0} where
  unfoldable pub is_header_scalar : Json N → Bool
  is_header_scalar (str t) = true
  is_header_scalar (num n) = true
  is_header_scalar (bool b) = true
  is_header_scalar _ = false

  -- validateJsonDepth: arrays and records go down a level
  unfoldable mutual
    pub validate_json_depth : Json N → ℕ → Result (Unit {0})
    validate_json_depth (arr vs) depth =
        let below = validate_items_depth vs (depth + 1) in
        if ltb 32 depth then err (invalid "Body nesting must not exceed 32 levels") else below
    validate_json_depth (obj fs) depth =
        let below = validate_fields_depth fs (depth + 1) in
        if ltb 32 depth then err (invalid "Body nesting must not exceed 32 levels") else below
    validate_json_depth _ depth =
        if ltb 32 depth then err (invalid "Body nesting must not exceed 32 levels") else ok tt

    pub validate_items_depth : Items N → ℕ → Result (Unit {0})
    validate_items_depth nil depth = ok tt
    validate_items_depth (cons v vs) depth =
        validate_json_depth v depth >> validate_items_depth vs depth

    pub validate_fields_depth : Fields N → ℕ → Result (Unit {0})
    validate_fields_depth end depth = ok tt
    validate_fields_depth (field k v fs) depth =
        validate_json_depth v depth >> validate_fields_depth fs depth

module _ (R : Runtime) where
  open R use {Num, parse}

  -- What is left of a string body: the value that it is JSON of, or the text.
  unfoldable pub decode_body : Json Num → Json Num
  decode_body (str t) = elim (parse t) [ none ↦ str t | some v ↦ v ]
  decode_body v = v

  unfoldable pub normalize_request_body : Json Num → Result (Json Num)
  normalize_request_body body = do validate_json_depth (decode_body body) 0; ok (decode_body body)

  abbrev pub is_entry : Text → Json Num → Bool
  is_entry name item = not (
      ltb 256 (length name)
      || (not (is_header_scalar item) || ltb 8192 (length (string_of R item))))

  unfoldable pub validate_header_entry : Text → Json Num → Result (Unit {0})
  unfolding is_header_scalar
  validate_header_entry name item =
      guard (is_entry name item) (invalid "entries must have names up to 256 characters")

  unfoldable pub validate_entries : List (Text × Json Num) → Result (Unit {0})
  validate_entries [] = ok tt
  validate_entries ((name, item) ∷ rest) = do validate_header_entry name item; validate_entries rest

  unfoldable pub validate_header_map : Fields Num → Result (Unit {0})
  validate_header_map fs = do
    guard (not (ltb 100 (length (entries fs)))) (invalid "must contain at most 100 entries")
    validate_entries (entries fs)

  abbrev pub is_string_scalar : Option (Json Num) → Option (Json Num) → Bool
  is_string_scalar (some (str name)) (some item) = is_header_scalar item
  is_string_scalar _ _ = false

  -- The name of an entry whose Key is a string.
  abbrev pub text_of : Option (Json Num) → Text
  text_of (some (str t)) = t
  text_of _ = []

  abbrev pub value_of : Option (Json Num) → Json Num
  value_of none = null
  value_of (some v) = v

  abbrev pub is_there : Option (Json Num) → Bool
  is_there none = false
  is_there (some v) = true

  -- An entry of a Header array: { Key, Value }, or a map of names to values.
  unfoldable pub validate_header_item : Json Num → Result (Unit {0})
  validate_header_item (obj fs) =
      let key = member (codes "Key") fs in
      let value = member (codes "Value") fs in
      if is_there key || is_there value
      then (guard (is_string_scalar key value)
            (invalid "Header must have a string Key and scalar Value")
          >> validate_header_entry (text_of key) (value_of value))
      else validate_header_map fs
  validate_header_item _ = err (invalid "Header must be an object")

  unfoldable pub validate_header_items : List (Json Num) → Result (Unit {0})
  validate_header_items [] = ok tt
  validate_header_items (v ∷ vs) = do validate_header_item v; validate_header_items vs

  unfoldable pub validate_header : Option (Json Num) → Result (Unit {0})
  validate_header none = ok tt
  validate_header (some null) = ok tt
  validate_header (some (arr vs)) = do
    guard (not (ltb 100 (length (items vs)))) (invalid "Header must contain at most 100 entries")
    validate_header_items (items vs)
  validate_header (some (obj fs)) = validate_header_map fs
  validate_header (some _) = err (invalid "Header must be an array or object")

  -- Array.isArray(item) ? item : [item]
  abbrev pub values_of : Json Num → List (Json Num)
  values_of (arr vs) = items vs
  values_of v = v ∷ []

  unfoldable pub is_bad_value : Json Num → Bool
  unfolding is_header_scalar
  is_bad_value null = false
  is_bad_value v = not (is_header_scalar v) || ltb 8192 (length (string_of R v))

  unfoldable pub validate_parameter_entries : List (Text × Json Num) → Result (Unit {0})
  validate_parameter_entries [] = ok tt
  validate_parameter_entries ((name, item) ∷ rest) = do
    guard
        (not (
          ltb 256 (length name)
          || (ltb 100 (length (values_of item)) || any is_bad_value (values_of item))))
        (invalid "Parameter must contain scalar values or arrays of scalar values")
    validate_parameter_entries rest

  unfoldable pub validate_parameters : Fields Num → Result (Unit {0})
  validate_parameters fs = do
    guard (not (ltb 100 (length (entries fs))))
        (invalid "Parameter must contain at most 100 entries")
    validate_parameter_entries (entries fs)

  unfoldable pub validate_parameter_object : Json Num → Result (Fields Num)
  validate_parameter_object (obj fs) = do validate_parameters fs; ok fs
  validate_parameter_object _ = err (invalid "Parameter must decode to an object")

  unfoldable pub validate_parameter : Option (Json Num) → Result (Unit {0})
  validate_parameter none = ok tt
  validate_parameter (some null) = ok tt
  validate_parameter (some (str t)) = ok tt
  validate_parameter (some (obj fs)) = validate_parameters fs
  validate_parameter (some _) = err (invalid "Parameter must be a JSON string or an object")

  unfoldable pub validate_body : Option (Json Num) → Result (Unit {0})
  validate_body none = ok tt
  validate_body (some body) = do normalized ← normalize_request_body body; ok tt

  unfoldable pub parse_access_point : Option (Json Num) → Result Text
  parse_access_point (some (str (c ∷ cs))) = ok (c ∷ cs)
  parse_access_point _ = err (invalid "AccessPoint must be a non-empty string")

  unfoldable pub parse_method : Option (Json Num) → Result (Option Text)
  parse_method none = ok none
  parse_method (some null) = ok none
  parse_method (some (str t)) = ok (some t)
  parse_method (some _) = err (invalid "Method must be a string")

  unfoldable pub validate_nonce : Option (Json Num) → Result (Unit {0})
  validate_nonce none = ok tt
  validate_nonce (some null) = ok tt
  validate_nonce (some (str t)) = ok tt
  validate_nonce (some _) = err (invalid "Nonce must be a string")

  unfoldable pub validate_timestamp : Option (Json Num) → Result (Unit {0})
  validate_timestamp none = ok tt
  validate_timestamp (some null) = ok tt
  validate_timestamp (some (str t)) = ok tt
  validate_timestamp (some (num n)) = ok tt
  validate_timestamp (some _) = err (invalid "Timestamp must be a string or number")

  unfoldable pub parse_fields : Fields Num → Result (DecryptedPayload Num)
  parse_fields p = do
    access_point ← parse_access_point (member (codes "AccessPoint") p)
    method ← parse_method (member (codes "Method") p)
    validate_header (member (codes "Header") p)
    validate_parameter (member (codes "Parameter") p)
    validate_body (member (codes "Body") p)
    validate_nonce (member (codes "Nonce") p)
    validate_timestamp (member (codes "Timestamp") p)
    ok (record {
      access_point = access_point;
      method = method;
      header = member (codes "Header") p;
      body = member (codes "Body") p;
      parameter = member (codes "Parameter") p;
      nonce = member (codes "Nonce") p;
      timestamp = member (codes "Timestamp") p;
    })

  unfoldable pub parse_payload : Json Num → Result (DecryptedPayload Num)
  unfolding parse_fields
  parse_payload (obj p) = parse_fields p
  parse_payload _ = err (invalid "must be a JSON object")
