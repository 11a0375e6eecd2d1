-- ===== src/Payload/Accepted.antt =====
-- parsePayload of common/payload.ts accepts exactly the values that `IsAccepted` describes, which
-- names the limits and not the order of the checks.
pub mod Headers
pub mod Parameters
use encryption_gateway.Prelude.{
  ◌≤◌, Text, codes, [], ◌∷◌, Option, none, some, Result, ok, err, ◌≡◌, ◌≢◌, ◌↔◌, ◌⊎◌, refl, arith,
  subst, ◌>>=◌, ◌>>◌,
}
use encryption_gateway.Runtime.{Json, null, bool, num, str, arr, obj, Fields, member, Runtime}
use encryption_gateway.Payload.{
  DecryptedPayload, decode_body, normalize_request_body, validate_header, validate_parameter,
  validate_body, parse_access_point, parse_method, validate_nonce, validate_timestamp, parse_fields,
  parse_payload,
}
use encryption_gateway.Payload.Depth.{height, depth_iff}
use encryption_gateway.Payload.Accepted.Headers.{IsHeaders, IsHeaders-iff}
use encryption_gateway.Payload.Accepted.Parameters.{IsQuery, IsQuery-iff}

-- Two results and five checks in a row.
seven_steps {ℓ} :
    {A B D : Type ℓ} (a : Result A) (b : Result B) (c1 c2 c3 c4 c5 : Result (Unit {0}))
    (f : A → B → D) (d : D)
    → (do x ← a; y ← b; c1; c2; c3; c4; c5; ok (f x y)) ≡ ok d
    → (x : A) × (y : B) × (a ≡ ok x)
      × (b ≡ ok y)
      × (c1 ≡ ok tt)
      × (c2 ≡ ok tt)
      × (c3 ≡ ok tt)
      × (c4 ≡ ok tt)
      × (c5 ≡ ok tt)
      × (f x y ≡ d)
seven_steps (err e) b c1 c2 c3 c4 c5 f d h = cc
seven_steps (ok x) (err e) c1 c2 c3 c4 c5 f d h = cc
seven_steps (ok x) (ok y) c1 c2 c3 c4 c5 f d h = (
  x,
  y,
  refl,
  refl,
  ground arith,
  ground arith,
  ground arith,
  ground arith,
  ground arith,
  ground arith,
)

module _ (R : Runtime) where
  open R use {Num}

  abbrev pub IsBody : Option (Json Num) → Type 0
  IsBody none = Unit
  IsBody (some body) = height (decode_body R body) ≤ 32

  IsBody-iff : (b : Option (Json Num)) → (validate_body R b ≡ ok tt) ↔ IsBody b
  unfolding validate_body normalize_request_body
  IsBody-iff none = ground arith
  IsBody-iff (some body) = ground (arith, depth_iff (decode_body R body) 0)

  abbrev pub IsTextOrNull : Option (Json Num) → Type 0
  IsTextOrNull none = Unit
  IsTextOrNull (some null) = Unit
  IsTextOrNull (some (str t)) = Unit
  IsTextOrNull (some _) = ⊥

  abbrev pub IsTime : Option (Json Num) → Type 0
  IsTime (some (num n)) = Unit
  IsTime v = IsTextOrNull v

  nonce_iff : (v : Option (Json Num)) → (validate_nonce R v ≡ ok tt) ↔ IsTextOrNull v
  unfolding validate_nonce
  nonce_iff none = ground arith
  nonce_iff (some null) = ground arith
  nonce_iff (some (bool b)) = ground arith
  nonce_iff (some (num n)) = ground arith
  nonce_iff (some (str t)) = ground arith
  nonce_iff (some (arr vs)) = ground arith
  nonce_iff (some (obj fs)) = ground arith

  IsTime-iff : (v : Option (Json Num)) → (validate_timestamp R v ≡ ok tt) ↔ IsTime v
  unfolding validate_timestamp
  IsTime-iff none = ground arith
  IsTime-iff (some null) = ground arith
  IsTime-iff (some (bool b)) = ground arith
  IsTime-iff (some (num n)) = ground arith
  IsTime-iff (some (str t)) = ground arith
  IsTime-iff (some (arr vs)) = ground arith
  IsTime-iff (some (obj fs)) = ground arith

  -- A string that is not empty, and is the access point.
  abbrev pub IsAccessPoint : Option (Json Num) → Text → Type 0
  IsAccessPoint v t = (v ≡ some (str t)) × (t ≢ [])

  -- Undefined or null for no method, or else the string.
  abbrev pub IsMethod : Option (Json Num) → Option Text → Type 0
  IsMethod v none = (v ≡ none) ⊎ (v ≡ some null)
  IsMethod v (some t) = v ≡ some (str t)

  IsAccessPoint-iff :
      (v : Option (Json Num)) (t : Text) → (parse_access_point R v ≡ ok t) ↔ IsAccessPoint v t
  unfolding parse_access_point
  IsAccessPoint-iff (some (str [])) t = ground arith
  IsAccessPoint-iff (some (str (c ∷ cs))) t = ground arith
  IsAccessPoint-iff v t = ground arith

  IsMethod-iff :
      (v : Option (Json Num)) (m : Option Text) → (parse_method R v ≡ ok m) ↔ IsMethod v m
  unfolding parse_method
  IsMethod-iff none none = ground arith
  IsMethod-iff (some null) m = ground arith
  IsMethod-iff (some (str t)) m = ground arith
  IsMethod-iff v m = ground arith

  pub record IsAccepted (p : Fields Num) (d : DecryptedPayload Num) : Type 0 where
    pub access_point : IsAccessPoint (member (codes "AccessPoint") p) d.access_point
    pub method : IsMethod (member (codes "Method") p) d.method
    pub header : IsHeaders R d.header
    pub parameter : IsQuery R d.parameter
    pub body : IsBody d.body
    pub nonce : IsTextOrNull d.nonce
    pub timestamp : IsTime d.timestamp
    -- the other members are those of the value
    pub has_header : d.header ≡ member (codes "Header") p
    pub has_parameter : d.parameter ≡ member (codes "Parameter") p
    pub has_body : d.body ≡ member (codes "Body") p
    pub has_nonce : d.nonce ≡ member (codes "Nonce") p
    pub has_timestamp : d.timestamp ≡ member (codes "Timestamp") p

  fields_sound :
      (p : Fields Num) (d : DecryptedPayload Num) → parse_fields R p ≡ ok d → IsAccepted p d
  unfolding parse_fields
  fields_sound p d h =
      let header = member (codes "Header") p in
      let parameter = member (codes "Parameter") p in
      let body = member (codes "Body") p in
      let nonce = member (codes "Nonce") p in
      let timestamp = member (codes "Timestamp") p in
      let (a, m, e1, e2, e3, e4, e5, e6, e7, same) =
        seven_steps (parse_access_point R (member (codes "AccessPoint") p))
          (parse_method R (member (codes "Method") p)) (validate_header R header)
          (validate_parameter R parameter) (validate_body R body) (validate_nonce R nonce)
          (validate_timestamp R timestamp) _ d h in
      subst (IsAccepted p) same (record {
        access_point = (IsAccessPoint-iff _ a).0 e1;
        method = (IsMethod-iff _ m).0 e2;
        header = (IsHeaders-iff R header).0 e3;
        parameter = (IsQuery-iff R parameter).0 e4;
        body = (IsBody-iff body).0 e5;
        nonce = (nonce_iff nonce).0 e6;
        timestamp = (IsTime-iff timestamp).0 e7;
        has_header = refl;
        has_parameter = refl;
        has_body = refl;
        has_nonce = refl;
        has_timestamp = refl;
      })

  fields_complete :
      (p : Fields Num) (d : DecryptedPayload Num) → IsAccepted p d → parse_fields R p ≡ ok d
  unfolding parse_fields
  fields_complete p d a = ground (
    arith,
    (IsAccessPoint-iff (member (codes "AccessPoint") p) d.access_point).1 a.access_point,
    (IsMethod-iff (member (codes "Method") p) d.method).1 a.method,
    (IsHeaders-iff R d.header).1 a.header,
    (IsQuery-iff R d.parameter).1 a.parameter,
    (IsBody-iff d.body).1 a.body,
    (nonce_iff d.nonce).1 a.nonce,
    (IsTime-iff d.timestamp).1 a.timestamp,
    a.has_header,
    a.has_parameter,
    a.has_body,
    a.has_nonce,
    a.has_timestamp,
  )

  -- A JSON value is accepted as a payload exactly when it is an object whose members keep the
  -- documented types and limits, and the payload has the members of that object.
  pub parse_payload_iff :
      (v : Json Num) (d : DecryptedPayload Num)
      → (parse_payload R v ≡ ok d) ↔ ((p : Fields Num) × (v ≡ obj p) × IsAccepted p d)
  unfolding parse_payload
  parse_payload_iff v d = (sound v, λ (p, same, a). rw same (fields_complete p d a))
    where
      sound :
          (w : Json Num)
          → parse_payload R w ≡ ok d
          → (p : Fields Num) × (w ≡ obj p) × IsAccepted p d
      sound (obj p) h = (p, refl, fields_sound p d h)
      sound null h = cc
      sound (bool b) h = cc
      sound (num n) h = cc
      sound (str t) h = cc
      sound (arr vs) h = cc
