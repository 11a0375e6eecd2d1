-- ===== src/OrderedMap/Laws.antt =====
-- The laws of get, set, delete and of a sweep, in the size and in the entry of each key.
use encryption_gateway.Prelude.{
  ◌+◌, ◌≤◌, ◌<◌, Text, text_eq, text_eq_iff, [], ◌∷◌, Option, none, some, Bool, true, false,
  if◌then◌else◌, ◌≡◌, refl, length, arith,
}
use encryption_gateway.OrderedMap.{OrderedMap, get, has, set, delete, delete_where, IsDistinct}

module _ {ℓ} {V : Type ℓ} where
  pub get-set :
      (k j : Text) (v : V) (m : OrderedMap V)
      → get j (set k v m) ≡ (if text_eq k j then some v else get j m)
  unfolding get set
  get-set k j v [] = refl
  get-set k j v ((i, w) ∷ m) =
      ground (arith, text_eq_iff k j, text_eq_iff i k, text_eq_iff i j, get-set k j v m)

  pub get-delete :
      (k j : Text) (m : OrderedMap V) → get j (delete k m) ≡ (if text_eq k j then none else get j m)
  unfolding get delete
  get-delete k j [] = ground arith
  get-delete k j ((i, w) ∷ m) =
      ground (arith, text_eq_iff k j, text_eq_iff i k, text_eq_iff i j, get-delete k j m)

  -- What is left of an entry after a sweep.
  abbrev pub unless : (V → Bool) → Option V → Option V
  unless test none = none
  unless test (some v) = if test v then none else some v

  pub get-delete_where :
      (test : V → Bool) (j : Text) (m : OrderedMap V)
      → IsDistinct m
      → get j (delete_where test m) ≡ unless test (get j m)
  unfolding get has delete_where
  get-delete_where test j [] d = refl
  get-delete_where test j ((i, w) ∷ m) d =
      ground (arith, text_eq_iff i j, get-delete_where test j m d.1)

  pub length-set :
      (k : Text) (v : V) (m : OrderedMap V)
      → length (set k v m) ≡ (if has k m then length m else length m + 1)
  unfolding get has set
  length-set k v [] = omega arith
  length-set k v ((i, w) ∷ m) = ground (arith, length-set k v m)

  pub length-delete : (k : Text) (m : OrderedMap V) → length (delete k m) ≤ length m
  unfolding delete
  length-delete k [] = omega arith
  length-delete k ((i, w) ∷ m) = ground (arith, length-delete k m)

  pub length-delete_has :
      (k : Text) (m : OrderedMap V) → has k m ≡ true → length (delete k m) < length m
  unfolding get has delete
  length-delete_has k [] h = ground arith
  length-delete_has k ((i, w) ∷ m) h = ground (arith, length-delete_has k m, length-delete k m)

  pub length-delete_where :
      (test : V → Bool) (m : OrderedMap V) → length (delete_where test m) ≤ length m
  unfolding delete_where
  length-delete_where test [] = omega arith
  length-delete_where test ((i, w) ∷ m) = ground (arith, length-delete_where test m)

  pub has-set :
      (k j : Text) (v : V) (m : OrderedMap V)
      → has j (set k v m) ≡ (if text_eq k j then true else has j m)
  unfolding has
  has-set k j v m = ground (arith, get-set k j v m)

  pub has-delete :
      (k j : Text) (m : OrderedMap V)
      → has j (delete k m) ≡ (if text_eq k j then false else has j m)
  unfolding has
  has-delete k j m = ground (arith, get-delete k j m)

  pub set-IsDistinct : (k : Text) (v : V) (m : OrderedMap V) → IsDistinct m → IsDistinct (set k v m)
  unfolding set
  set-IsDistinct k v [] d = (unfold has get in refl, tt)
  set-IsDistinct k v ((i, w) ∷ m) d =
      ground (arith, set-IsDistinct k v m d.1, has-set k i v m, text_eq_iff i k, text_eq_iff k i)

  pub delete-IsDistinct : (k : Text) (m : OrderedMap V) → IsDistinct m → IsDistinct (delete k m)
  unfolding delete
  delete-IsDistinct k [] d = tt
  delete-IsDistinct k ((i, w) ∷ m) d =
      ground (arith, delete-IsDistinct k m d.1, has-delete k i m, text_eq_iff i k, text_eq_iff k i)

  has-delete_where :
      (test : V → Bool) (j : Text) (m : OrderedMap V)
      → has j m ≡ false
      → has j (delete_where test m) ≡ false
  unfolding get has delete_where
  has-delete_where test j [] h = refl
  has-delete_where test j ((i, w) ∷ m) h = ground (arith, has-delete_where test j m)

  pub delete_where-IsDistinct :
      (test : V → Bool) (m : OrderedMap V) → IsDistinct m → IsDistinct (delete_where test m)
  unfolding delete_where
  delete_where-IsDistinct test [] d = tt
  delete_where-IsDistinct test ((i, w) ∷ m) d =
      ground (arith, delete_where-IsDistinct test m d.1, has-delete_where test i m)

  -- Where a sweep takes the entry of a key, the map shrinks.
  pub length-delete_where-has :
      (test : V → Bool) (k : Text) (m : OrderedMap V)
      → has k m ≡ true
      → has k (delete_where test m) ≡ false
      → length (delete_where test m) < length m
  unfolding get has delete_where
  length-delete_where-has test k [] h e = ground arith
  length-delete_where-has test k ((i, w) ∷ m) h e =
      ground (arith, length-delete_where-has test k m, length-delete_where test m)

  pub get_none-delete_where :
      (test : V → Bool) (j : Text) (m : OrderedMap V)
      → get j m ≡ none
      → get j (delete_where test m) ≡ none
  unfolding get delete_where
  get_none-delete_where test j [] h = refl
  get_none-delete_where test j ((i, w) ∷ m) h = ground (arith, get_none-delete_where test j m)
