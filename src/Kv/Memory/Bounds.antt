-- ===== src/Kv/Memory/Bounds.antt =====
-- MemoryKvStore: every operation keeps the keys distinct and the number of entries within the cap.
use encryption_gateway.Prelude.{ℕ, Text, List, [], ◌∷◌, Option, arith}
use encryption_gateway.OrderedMap
use encryption_gateway.OrderedMap.Laws.{
  length-set, length-delete, set-IsDistinct, delete-IsDistinct,
}
use encryption_gateway.Kv.Spec.{Call, a_get, a_set, a_set_if_absent, a_get_delete, a_delete}
use encryption_gateway.Kv.Memory.{
  Entry, MemoryKvStore, lookup, evict_if_full, write, get, set, set_if_absent, get_delete, delete,
  expiry, IsValid,
}
use encryption_gateway.Kv.Memory.Eviction.{
  evict_if_full-IsDistinct, evict_if_full_room, max_entries-evict_if_full,
}

module _ (now : ℕ) (key : Text) (s : MemoryKvStore) (v : IsValid s) where
  pub delete-IsValid : IsValid (delete key s).1
  unfolding delete
  delete-IsValid =
      ground (arith, delete-IsDistinct key s.entries v.distinct, length-delete key s.entries)

  pub lookup-IsValid : IsValid (lookup now key s).1
  unfolding lookup
  lookup-IsValid =
      ground (arith, delete-IsDistinct key s.entries v.distinct, length-delete key s.entries)

  pub get-IsValid : IsValid (get now key s).1
  unfolding get
  get-IsValid = lookup-IsValid

  pub write-IsValid : (value : Text) (ttl : Option ℕ) → IsValid (write now key value ttl s)
  unfolding write
  write-IsValid value ttl =
      let cut : MemoryKvStore = record s { entries = OrderedMap.delete key s.entries } in
      let freed = evict_if_full now cut in
      let e : Entry = record { value = value; expires_at = expiry now ttl } in
      ground (
        arith,
        evict_if_full-IsDistinct now cut (delete-IsDistinct key s.entries v.distinct),
        set-IsDistinct key e freed.entries,
        length-set key e freed.entries,
        evict_if_full_room now cut v.capacity,
        max_entries-evict_if_full now cut,
      )

pub set-IsValid :
    (now : ℕ) (key value : Text) (ttl : Option ℕ) (s : MemoryKvStore)
    → IsValid s
    → IsValid (set now key value ttl s)
unfolding set
set-IsValid now key value ttl s v = write-IsValid now key s v value ttl

pub set_if_absent-IsValid :
    (now : ℕ) (key value : Text) (ttl : Option ℕ) (s : MemoryKvStore)
    → IsValid s
    → IsValid (set_if_absent now key value ttl s).1
unfolding set_if_absent
set_if_absent-IsValid now key value ttl s v = ground (
  arith,
  lookup-IsValid now key s v,
  write-IsValid now key (lookup now key s).1 (lookup-IsValid now key s v) value ttl,
)

pub get_delete-IsValid :
    (now : ℕ) (key : Text) (s : MemoryKvStore) → IsValid s → IsValid (get_delete now key s).1
unfolding get_delete delete
get_delete-IsValid now key s v =
    let looked = lookup-IsValid now key s v in
    ground (arith, delete-IsValid now key (lookup now key s).1 looked)

-- The state after a call, and after a run of calls.
abbrev pub after : Call → MemoryKvStore → MemoryKvStore
after (a_get now key) s = (get now key s).1
after (a_set now key value ttl) s = set now key value ttl s
after (a_set_if_absent now key value ttl) s = (set_if_absent now key value ttl s).1
after (a_get_delete now key) s = (get_delete now key s).1
after (a_delete key) s = (delete key s).1

abbrev pub after_all : List Call → MemoryKvStore → MemoryKvStore
after_all [] s = s
after_all (c ∷ cs) s = after_all cs (after c s)

pub after-IsValid : (c : Call) (s : MemoryKvStore) → IsValid s → IsValid (after c s)
after-IsValid (a_get now key) s v = get-IsValid now key s v
after-IsValid (a_set now key value ttl) s v = set-IsValid now key value ttl s v
after-IsValid (a_set_if_absent now key value ttl) s v = set_if_absent-IsValid now key value ttl s v
after-IsValid (a_get_delete now key) s v = get_delete-IsValid now key s v
after-IsValid (a_delete key) s v = delete-IsValid 0 key s v

-- After any calls at any times, a valid store is valid: its keys are distinct, it holds at most
-- `max_entries` entries, and `max_entries` is at least 1.
pub after_all-IsValid : (cs : List Call) (s : MemoryKvStore) → IsValid s → IsValid (after_all cs s)
after_all-IsValid [] s v = v
after_all-IsValid (c ∷ cs) s v = after_all-IsValid cs (after c s) (after-IsValid c s v)
