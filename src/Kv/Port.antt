-- ===== src/Kv/Port.antt =====
-- The port, and the laws that its clients rely on. `Absent k` says that no read finds a value at
-- `k` until somebody writes one.
use encryption_gateway.Prelude.{ℕ, Text, Option, none, some, Bool, true, Result, ok, ◌≡◌, ◌≢◌}

pub record KvStore : Type 1 where
  pub State : Type 0
  pub get : ℕ → Text → State → Result (Option Text) × State
  pub set : ℕ → Text → Text → Option ℕ → State → Result (Unit {0}) × State
  pub set_if_absent : ℕ → Text → Text → Option ℕ → State → Result Bool × State
  pub get_delete : ℕ → Text → State → Result (Option Text) × State
  pub delete : ℕ → Text → State → Result Bool × State

pub record KvLaws (kv : KvStore) : Type 1 where
  pub Absent : Text → kv.State → Type 0
  pub absent-get :
      (now : ℕ) (k : Text) (s : kv.State) (v : Text) → Absent k s → (kv.get now k s).0 ≢ ok (some v)
  pub absent-get_delete :
      (now : ℕ) (k : Text) (s : kv.State) (v : Text)
      → Absent k s
      → (kv.get_delete now k s).0 ≢ ok (some v)
  pub get_delete-absent :
      (now : ℕ) (k : Text) (s : kv.State) (found : Option Text)
      → (kv.get_delete now k s).0 ≡ ok found
      → Absent k (kv.get_delete now k s).1
  -- What no operation but a write at the key can end.
  pub get-keeps : (now : ℕ) (k j : Text) (s : kv.State) → Absent j s → Absent j (kv.get now k s).1
  pub get_delete-keeps :
      (now : ℕ) (k j : Text) (s : kv.State) → Absent j s → Absent j (kv.get_delete now k s).1
  pub delete-keeps :
      (now : ℕ) (k j : Text) (s : kv.State) → Absent j s → Absent j (kv.delete now k s).1
  pub set-keeps :
      (now : ℕ) (k j v : Text) (ttl : Option ℕ) (s : kv.State)
      → j ≢ k
      → Absent j s
      → Absent j (kv.set now k v ttl s).1
  pub set_if_absent-keeps :
      (now : ℕ) (k j v : Text) (ttl : Option ℕ) (s : kv.State)
      → j ≢ k
      → Absent j s
      → Absent j (kv.set_if_absent now k v ttl s).1

-- The laws of a store that forgets nothing: a key that was written without a lifetime has a value,
-- `Taken k`, until somebody deletes it.
pub record KvKeeps (kv : KvStore) : Type 1 where
  pub Taken : Text → kv.State → Type 0
  pub set_if_absent-taken :
      (now : ℕ) (k v : Text) (s : kv.State)
      → (kv.set_if_absent now k v none s).0 ≡ ok true
      → Taken k (kv.set_if_absent now k v none s).1
  pub taken-set_if_absent :
      (now : ℕ) (k v : Text) (ttl : Option ℕ) (s : kv.State)
      → Taken k s
      → (kv.set_if_absent now k v ttl s).0 ≢ ok true
  pub get-taken : (now : ℕ) (k j : Text) (s : kv.State) → Taken j s → Taken j (kv.get now k s).1
  pub set-taken :
      (now : ℕ) (k j v : Text) (ttl : Option ℕ) (s : kv.State)
      → j ≢ k
      → Taken j s
      → Taken j (kv.set now k v ttl s).1
  pub set_if_absent_keeps :
      (now : ℕ) (k j v : Text) (ttl : Option ℕ) (s : kv.State)
      → Taken j s
      → Taken j (kv.set_if_absent now k v ttl s).1
  pub get_delete-taken :
      (now : ℕ) (k j : Text) (s : kv.State) → j ≢ k → Taken j s → Taken j (kv.get_delete now k s).1
