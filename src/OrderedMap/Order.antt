-- ===== src/OrderedMap/Order.antt =====
-- The place of a key in the order of insertion: how many entries stand behind it.
use encryption_gateway.Prelude.{
  ℕ, ◌+◌, ◌≤◌, ◌<◌, Text, text_eq, text_eq_iff, text_eq_refl, [], ◌∷◌, none, some, Bool, true,
  false, if◌then◌else◌, ◌≡◌, ◌≢◌, length, arith,
}
use encryption_gateway.OrderedMap.{OrderedMap, get, has, set, delete_where}
use encryption_gateway.OrderedMap.Laws.{length-set, length-delete_where}

module _ {ℓ} {V : Type ℓ} where
  unfoldable pub behind : Text → OrderedMap V → ℕ
  behind k [] = 0
  behind k ((j, v) ∷ m) = if text_eq j k then length m else behind k m

  pub behind-lt-length : (k : Text) (m : OrderedMap V) → has k m ≡ true → behind k m < length m
  unfolding behind has get
  behind-lt-length k [] h = ground arith
  behind-lt-length k ((j, v) ∷ m) h = ground (arith, behind-lt-length k m)

  pub behind-set :
      (k j : Text) (v : V) (m : OrderedMap V) → k ≢ j → behind j (set k v m) ≤ behind j m + 1
  unfolding behind set
  behind-set k j v [] ne = ground (arith, text_eq_iff k j)
  behind-set k j v ((i, w) ∷ m) ne =
      ground (arith, behind-set k j v m ne, length-set k v m, text_eq_iff i k, text_eq_iff i j)

  pub behind-set_new :
      (k : Text) (v : V) (m : OrderedMap V) → get k m ≡ none → behind k (set k v m) ≡ 0
  unfolding behind set get
  behind-set_new k v [] h = ground (arith, text_eq_refl k)
  behind-set_new k v ((i, w) ∷ m) h = ground (arith, behind-set_new k v m)

  pub behind-delete_where :
      (test : V → Bool) (k : Text) (v : V) (m : OrderedMap V)
      → get k m ≡ some v
      → test v ≡ false
      → behind k (delete_where test m) ≤ behind k m
  unfolding behind get delete_where
  behind-delete_where test k v [] h t = ground arith
  behind-delete_where test k v ((i, w) ∷ m) h t =
      ground (arith, behind-delete_where test k v m, length-delete_where test m)
