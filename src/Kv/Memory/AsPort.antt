-- ===== src/Kv/Memory/AsPort.antt =====
-- MemoryKvStore implements KvStore: no call fails, and the laws of the port hold.
use encryption_gateway.Prelude.{
  ℕ, Text, text_eq_iff, text_eq_refl, Option, none, some, ok, ◌≡◌, ◌≢◌, arith,
}
use encryption_gateway.OrderedMap
use encryption_gateway.OrderedMap.Laws.{get-set, get-delete}
use encryption_gateway.Kv.Port.{KvStore, KvLaws}
use encryption_gateway.Kv.Memory.{
  MemoryKvStore, lookup, evict_if_full, write, get, set, set_if_absent, get_delete, delete, expiry,
}
use encryption_gateway.Kv.Memory.Eviction.{evict_if_full-none}

abbrev pub memory_port : KvStore
memory_port = record {
  State = MemoryKvStore;
  get = λ now k s. let (v, t) = get now k s in (ok v, t);
  set = λ now k v ttl s. (ok tt, set now k v ttl s);
  set_if_absent = λ now k v ttl s. let (b, t) = set_if_absent now k v ttl s in (ok b, t);
  get_delete = λ now k s. let (v, t) = get_delete now k s in (ok v, t);
  delete = λ now k s. let (b, t) = delete k s in (ok b, t);
}

abbrev pub IsAbsent : Text → MemoryKvStore → Type 0
IsAbsent k s = OrderedMap.get k s.entries ≡ none

module _ (now : ℕ) (k : Text) (s : MemoryKvStore) where
  lookup-absent : (v : Text) → IsAbsent k s → (lookup now k s).0 ≢ some v
  unfolding lookup
  lookup-absent v h = ground arith

  lookup-keeps : (j : Text) → IsAbsent j s → IsAbsent j (lookup now k s).1
  unfolding lookup
  lookup-keeps j h = ground (arith, get-delete k j s.entries)

  get_delete-removes : IsAbsent k (get_delete now k s).1
  unfolding get_delete
  get_delete-removes = ground (arith, get-delete k k (lookup now k s).1.entries, text_eq_refl k)

  get_delete-keeps : (j : Text) → IsAbsent j s → IsAbsent j (get_delete now k s).1
  unfolding get_delete
  get_delete-keeps j h = ground (arith, get-delete k j (lookup now k s).1.entries, lookup-keeps j)

  delete-keeps : (j : Text) → IsAbsent j s → IsAbsent j (delete k s).1
  unfolding delete
  delete-keeps j h = ground (arith, get-delete k j s.entries)

  write-keeps :
      (j v : Text) (ttl : Option ℕ) → j ≢ k → IsAbsent j s → IsAbsent j (write now k v ttl s)
  unfolding write
  write-keeps j v ttl ne h =
      let cut : MemoryKvStore = record s { entries = OrderedMap.delete k s.entries } in
      ground (
        arith,
        get-set k j (record { value = v; expires_at = expiry now ttl })
            (evict_if_full now cut).entries,
        text_eq_iff k j,
        evict_if_full-none now cut j,
        get-delete k j s.entries,
      )

set_if_absent-keeps :
    (now : ℕ) (k j v : Text) (ttl : Option ℕ) (s : MemoryKvStore)
    → j ≢ k
    → IsAbsent j s
    → IsAbsent j (set_if_absent now k v ttl s).1
unfolding set_if_absent
set_if_absent-keeps now k j v ttl s ne h = ground (
  arith,
  lookup-keeps now k s j h,
  write-keeps now k (lookup now k s).1 j v ttl ne (lookup-keeps now k s j h),
)

pub memory_laws : KvLaws memory_port
unfolding get set get_delete
memory_laws = record {
  Absent = IsAbsent;
  absent-get = λ now k s v h e. lookup-absent now k s v h (ground arith);
  absent-get_delete = λ now k s v h e. lookup-absent now k s v h (ground arith);
  get_delete-absent = λ now k s found e. get_delete-removes now k s;
  get-keeps = λ now k j s h. lookup-keeps now k s j h;
  get_delete-keeps = λ now k j s h. get_delete-keeps now k s j h;
  delete-keeps = λ now k j s h. delete-keeps now k s j h;
  set-keeps = λ now k j v ttl s ne h. write-keeps now k s j v ttl ne h;
  set_if_absent-keeps = λ now k j v ttl s ne h. set_if_absent-keeps now k j v ttl s ne h;
}
