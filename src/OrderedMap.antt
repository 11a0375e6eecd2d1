-- ===== src/OrderedMap.antt =====
-- JavaScript's `Map` with string keys: a list of entries in the order of insertion.
pub mod Laws
pub mod Order
use encryption_gateway.Prelude.{
  Text, text_eq, List, [], ◌∷◌, Option, none, some, Bool, true, false, if◌then◌else◌, ◌≡◌,
}

abbrev pub OrderedMap {ℓ} : Type ℓ → Type ℓ
OrderedMap V = List (Text × V)

module _ {ℓ} {V : Type ℓ} where
  -- m.get(k)
  unfoldable pub get : Text → OrderedMap V → Option V
  get k [] = none
  get k ((j, v) ∷ m) = if text_eq j k then some v else get k m

  -- m.has(k)
  unfoldable pub has : Text → OrderedMap V → Bool
  unfolding get
  has k m = elim (get k m) [ none ↦ false | some _ ↦ true ]

  -- m.set(k, v): a key that is there keeps its place
  unfoldable pub set : Text → V → OrderedMap V → OrderedMap V
  set k v [] = (k, v) ∷ []
  set k v ((j, w) ∷ m) = let rest = set k v m in if text_eq j k then (j, v) ∷ m else (j, w) ∷ rest

  -- m.delete(k)
  unfoldable pub delete : Text → OrderedMap V → OrderedMap V
  delete k [] = []
  delete k ((j, w) ∷ m) = let rest = delete k m in if text_eq j k then rest else (j, w) ∷ rest

  -- for (const [k, v] of m) if (test(v)) m.delete(k)
  unfoldable pub delete_where : (V → Bool) → OrderedMap V → OrderedMap V
  delete_where test [] = []
  delete_where test ((j, w) ∷ m) =
      let rest = delete_where test m in if test w then rest else (j, w) ∷ rest

  -- No key twice: what a `Map` guarantees.
  abbrev pub IsDistinct : OrderedMap V → Type 0
  IsDistinct [] = Unit
  IsDistinct ((k, v) ∷ m) = (has k m ≡ false) × IsDistinct m
