-- ===== src/Tests/Stores.antt =====
-- The memory store and the windows of the rate limit.
use encryption_gateway.Prelude.{
  ℕ, ◌+◌, Text, codes, text_eq, List, [], ◌∷◌, none, some, ◌≡◌, ◌≢◌, refl, arith,
}
use encryption_gateway.OrderedMap
use encryption_gateway.OrderedMap.{OrderedMap, IsDistinct}
use encryption_gateway.Kv.Memory
use encryption_gateway.Kv.Memory.{
  MemoryKvStore, get, set, get_delete, lookup, lookup_entry, write, evict_if_full, evict_oldest,
}
use encryption_gateway.Kv.Spec.{Call, a_set, a_get, a_get_delete, Run, found, done}
use encryption_gateway.Kv.Memory.Refines.{seen, after_all-Run}
use encryption_gateway.Kv.Memory.Bounds.{after_all, after_all-IsValid}
use encryption_gateway.RateLimit.{RateLimit, overflow}
use encryption_gateway.RateLimit.Windows.{window_limit, allowed_of, requests_of, min}

-- One value without a lifetime and one until 100, of two.
abbrev a_store : MemoryKvStore
a_store = record {
  entries =
      (codes "a", record { value = codes "x"; expires_at = none })
      ∷ (codes "b", record { value = codes "y"; expires_at = some 100 })
      ∷ [];
  max_entries = 2;
}

a_store-IsDistinct : IsDistinct a_store.entries
unfolding OrderedMap.has OrderedMap.get text_eq
a_store-IsDistinct = (refl, (refl, tt))

a_store-IsValid : Memory.IsValid a_store
a_store-IsValid = record {
  distinct = a_store-IsDistinct;
  bounded = ground arith;
  capacity = ground arith;
}

after_all-IsValid_example :
    Memory.IsValid
      (after_all (a_set 5 (codes "c") (codes "z") none ∷ a_get 101 (codes "b") ∷ []) a_store)
after_all-IsValid_example =
    after_all-IsValid (a_set 5 (codes "c") (codes "z") none ∷ a_get 101 (codes "b") ∷ []) a_store
      a_store-IsValid

-- A value that lives until 17 evicts the oldest one, `b` is taken once, and `a` is gone.
abbrev some_calls : List Call
some_calls =
    a_set 7 (codes "c") (codes "z") (some 10)
    ∷ a_get_delete 8 (codes "b")
    ∷ a_get_delete 9 (codes "b")
    ∷ a_get 9 (codes "a")
    ∷ []

after_all-Run_example :
    Run some_calls
      (seen a_store)
      (done ∷ found (some (codes "y")) ∷ found none ∷ found none ∷ [])
      (seen (after_all some_calls a_store))
unfolding set get_delete get lookup lookup_entry write evict_if_full evict_oldest OrderedMap.delete
    OrderedMap.delete_where OrderedMap.set OrderedMap.get OrderedMap.has text_eq
after_all-Run_example = after_all-Run some_calls a_store a_store-IsValid

-- No client yet, two requests in a second.
abbrev a_limit : RateLimit
a_limit = record { ttl_ms = 1000; limit = 2; max_entries = 10; hits = []; next_sweep_at = 0 }

-- Three requests of one client and one of another: the third is refused.
abbrev some_requests : List (Text × ℕ)
some_requests = (codes "u", 6) ∷ (codes "v", 7) ∷ (codes "u", 900) ∷ []

overflow_ne : overflow ≢ codes "u"
unfolding overflow
overflow_ne = ground arith

window_limit_example :
    allowed_of (codes "u") ((codes "u", 5) ∷ some_requests) a_limit
    ≡ min (1 + requests_of (codes "u") some_requests) 2
unfolding OrderedMap.get
window_limit_example =
    window_limit (codes "u") 5 some_requests a_limit tt overflow_ne tt (ground arith)
      (ground arith, (ground arith, (ground arith, tt)))
