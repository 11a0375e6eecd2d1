-- ===== src/Payload/Depth.antt =====
-- validateJsonDepth and normalizeRequestBody of common/payload.ts: a body is accepted exactly when
-- it nests at most 32 levels.
use encryption_gateway.Prelude.{
  ℕ, ◌+◌, ◌≤◌, if◌then◌else◌, ltb, leb, Result, ok, err, ◌≡◌, ◌↔◌, arith, ◌>>◌, Failure,
}
use encryption_gateway.Runtime.{
  Json, null, bool, num, str, arr, obj, Items, nil, cons, Fields, end, field, Runtime,
}
use encryption_gateway.Payload.{
  validate_json_depth, validate_items_depth, validate_fields_depth, decode_body,
  normalize_request_body,
}

abbrev max : ℕ → ℕ → ℕ
max a b = if leb a b then b else a

-- One level: the check of the depth, and then what lies below.
level_iff :
    (d h : ℕ) (e : Failure) (below : Result (Unit {0}))
    → (d + 1 ≤ 33 → (below ≡ ok tt) ↔ (d + 1 + h ≤ 33))
    → ((if ltb 32 d then err e else below) ≡ ok tt) ↔ (d + h ≤ 32)
level_iff d h e below ih = ground arith

-- A value and those after it.
next_iff :
    (d h k : ℕ) (first rest : Result (Unit {0}))
    → (first ≡ ok tt) ↔ (d + h ≤ 32)
    → (rest ≡ ok tt) ↔ (d + k ≤ 33)
    → ((first >> rest) ≡ ok tt) ↔ (d + max (h + 1) k ≤ 33)
next_iff d h k first rest p q = ground arith

module _ {N : Type 0} where
  -- The levels below a value: none below a scalar or an empty container.
  unfoldable mutual
    pub height : Json N → ℕ
    height (arr vs) = height_items vs
    height (obj fs) = height_fields fs
    height _ = 0

    pub height_items : Items N → ℕ
    height_items nil = 0
    height_items (cons v vs) = max (height v + 1) (height_items vs)

    pub height_fields : Fields N → ℕ
    height_fields end = 0
    height_fields (field k v fs) = max (height v + 1) (height_fields fs)

  mutual
    unfolding validate_json_depth height

    pub depth_iff : (v : Json N) (d : ℕ) → (validate_json_depth v d ≡ ok tt) ↔ (d + height v ≤ 32)
    depth_iff null d = ground arith
    depth_iff (bool b) d = ground arith
    depth_iff (num n) d = ground arith
    depth_iff (str t) d = ground arith
    depth_iff (arr vs) d = level_iff d (height_items vs) _ _ (items_iff vs (d + 1))
    depth_iff (obj fs) d = level_iff d (height_fields fs) _ _ (fields_iff fs (d + 1))

    items_iff :
        (vs : Items N) (d : ℕ)
        → d ≤ 33
        → (validate_items_depth vs d ≡ ok tt) ↔ (d + height_items vs ≤ 33)
    items_iff nil d h = ground arith
    items_iff (cons v vs) d h =
        next_iff d (height v) (height_items vs) _ _ (depth_iff v d) (items_iff vs d h)

    fields_iff :
        (fs : Fields N) (d : ℕ)
        → d ≤ 33
        → (validate_fields_depth fs d ≡ ok tt) ↔ (d + height_fields fs ≤ 33)
    fields_iff end d h = ground arith
    fields_iff (field k v fs) d h =
        next_iff d (height v) (height_fields fs) _ _ (depth_iff v d) (fields_iff fs d h)

-- A body is accepted exactly when the value that is sent, which for a string is what it is JSON
-- of or the string itself, has nothing below its 32nd level; that value is the result.
pub normalize_request_body_iff :
    (R : Runtime) (body v : Json R.Num)
    → (normalize_request_body R body ≡ ok v)
      ↔ ((v ≡ decode_body R body) × (height (decode_body R body) ≤ 32))
unfolding normalize_request_body
normalize_request_body_iff R body v = ground (arith, depth_iff (decode_body R body) 0)
