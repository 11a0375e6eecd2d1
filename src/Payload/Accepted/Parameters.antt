-- ===== src/Payload/Accepted/Parameters.antt =====
-- What parsePayload accepts as Parameter.
use encryption_gateway.Prelude.{
  ◌≤◌, Text, List, [], ◌∷◌, length, any, All, Option, none, some, false, ok, ◌≡◌, ◌↔◌, arith,
}
use encryption_gateway.Runtime.{
  Json, null, bool, num, str, arr, obj, Fields, entries, Runtime, string_of,
}
use encryption_gateway.Payload.{
  values_of, is_bad_value, validate_parameter_entries, validate_parameters, validate_parameter,
}
use encryption_gateway.Payload.Accepted.Headers.{IsScalar}

module _ (R : Runtime) where
  open R use {Num}

  -- A query value: null, or a scalar of up to 8192 characters.
  abbrev pub IsValue : Json Num → Type 0
  IsValue null = Unit
  IsValue v = IsScalar R v × (length (string_of R v) ≤ 8192)

  abbrev pub IsParameter : Text × Json Num → Type 0
  IsParameter (name, item) =
      (length name ≤ 256) × (length (values_of R item) ≤ 100) × All IsValue (values_of R item)

  abbrev pub AreParameters : Fields Num → Type 0
  AreParameters fs = (length (entries fs) ≤ 100) × All IsParameter (entries fs)

  abbrev pub IsQuery : Option (Json Num) → Type 0
  IsQuery none = Unit
  IsQuery (some null) = Unit
  IsQuery (some (str t)) = Unit
  IsQuery (some (obj fs)) = AreParameters fs
  IsQuery (some _) = ⊥

  IsValue-iff : (v : Json Num) → (is_bad_value R v ≡ false) ↔ IsValue v
  unfolding is_bad_value
  IsValue-iff null = ground arith
  IsValue-iff (bool b) = ground arith
  IsValue-iff (num n) = ground arith
  IsValue-iff (str t) = ground arith
  IsValue-iff (arr vs) = ground arith
  IsValue-iff (obj fs) = ground arith

  values_iff : (vs : List (Json Num)) → (any (is_bad_value R) vs ≡ false) ↔ All IsValue vs
  values_iff [] = ground arith
  values_iff (v ∷ vs) = ground (arith, IsValue-iff v, values_iff vs)

  parameters_iff :
      (es : List (Text × Json Num)) → (validate_parameter_entries R es ≡ ok tt) ↔ All IsParameter es
  unfolding validate_parameter_entries
  parameters_iff [] = ground arith
  parameters_iff ((name, item) ∷ es) =
      ground (arith, values_iff (values_of R item), parameters_iff es)

  pub validate_parameters_iff :
      (fs : Fields Num) → (validate_parameters R fs ≡ ok tt) ↔ AreParameters fs
  unfolding validate_parameters
  validate_parameters_iff fs = ground (arith, parameters_iff (entries fs))

  pub IsQuery-iff : (q : Option (Json Num)) → (validate_parameter R q ≡ ok tt) ↔ IsQuery q
  unfolding validate_parameter
  IsQuery-iff none = ground arith
  IsQuery-iff (some null) = ground arith
  IsQuery-iff (some (bool b)) = ground arith
  IsQuery-iff (some (num n)) = ground arith
  IsQuery-iff (some (str t)) = ground arith
  IsQuery-iff (some (arr vs)) = ground arith
  IsQuery-iff (some (obj fs)) = ground (arith, validate_parameters_iff fs)
