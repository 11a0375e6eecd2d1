-- ===== src/Kv/Memory/Views.antt =====
-- MemoryKvStore: what each operation returns, and what it does to the value of every key.
use encryption_gateway.Prelude.{
  ℕ, ◌≤◌, ◌<◌, Text, text_eq_iff, text_eq_refl, Option, none, some, true, false, ◌≡◌, ◌≢◌, ◌↔◌, ◌⊎◌,
  length, arith,
}
use encryption_gateway.OrderedMap
use encryption_gateway.OrderedMap.{OrderedMap, IsDistinct}
use encryption_gateway.OrderedMap.Laws.{get-set, get-delete, delete-IsDistinct}
use encryption_gateway.Kv.Memory.{
  Entry, MemoryKvStore, lookup, evict_if_full, write, get, set, set_if_absent, get_delete, view,
  live, expiry,
}
use encryption_gateway.Kv.Memory.Eviction.{get-evict_if_full, evict_if_full_of_room}

module _ (now : ℕ) (key : Text) (s : MemoryKvStore) where
  pub lookup-eq-view : (lookup now key s).0 ≡ view now s key
  unfolding lookup view
  lookup-eq-view = ground arith

  -- What a lookup drops is not seen later either.
  pub view-lookup : (t : ℕ) (j : Text) → now ≤ t → view t (lookup now key s).1 j ≡ view t s j
  unfolding lookup view
  view-lookup t j h = ground (arith, get-delete key j s.entries, text_eq_iff key j)

  -- A get returns the value that is seen at its time, and changes nothing that is seen then or
  -- later.
  pub get-eq-view :
      ((get now key s).0 ≡ view now s key)
      × ((t : ℕ) (j : Text) → now ≤ t → view t (get now key s).1 j ≡ view t s j)
  unfolding get
  get-eq-view = (lookup-eq-view, view-lookup)

  -- A getDelete returns the value that is seen at its time; from then on the key has no value at
  -- any time, and the other keys have the values that they had.
  pub get_delete_once :
      ((get_delete now key s).0 ≡ view now s key)
      × ((t : ℕ) → view t (get_delete now key s).1 key ≡ none)
      × ((t : ℕ) (j : Text) → j ≢ key → now ≤ t → view t (get_delete now key s).1 j ≡ view t s j)
  unfolding get_delete view
  get_delete_once = (
    lookup-eq-view,
    λ t. ground (arith, get-delete key key (lookup now key s).1.entries, text_eq_refl key),
    λ t j ne le. ground (
      arith,
      get-delete key j (lookup now key s).1.entries,
      text_eq_iff key j,
      view-lookup t j le,
    ),
  )

module _ (now : ℕ) (key value : Text) (ttl : Option ℕ) (s : MemoryKvStore) where
  abbrev cut : MemoryKvStore
  cut = record s { entries = OrderedMap.delete key s.entries }

  abbrev pub entry : Entry
  entry = record { value = value; expires_at = expiry now ttl }

  get-write_self : OrderedMap.get key (write now key value ttl s).entries ≡ some entry
  unfolding write
  get-write_self =
      ground (arith, get-set key key entry (evict_if_full now cut).entries, text_eq_refl key)

  get-write_ne :
      (j : Text)
      → IsDistinct s.entries
      → j ≢ key
      → (OrderedMap.get j (write now key value ttl s).entries ≡ none)
        ⊎ (OrderedMap.get j (write now key value ttl s).entries ≡ OrderedMap.get j s.entries)
  unfolding write
  get-write_ne j d ne = ground (
    arith,
    get-set key j entry (evict_if_full now cut).entries,
    text_eq_iff key j,
    get-evict_if_full now cut j (delete-IsDistinct key s.entries d),
    get-delete key j s.entries,
  )

  get-write_room :
      (j : Text)
      → length (OrderedMap.delete key s.entries) < s.max_entries
      → j ≢ key
      → OrderedMap.get j (write now key value ttl s).entries ≡ OrderedMap.get j s.entries
  unfolding write
  get-write_room j room ne = rw (evict_if_full_of_room now cut room) (
      ground
        (arith, get-set key j entry cut.entries, text_eq_iff key j, get-delete key j s.entries))

  view-write_self : (t : ℕ) → view t (write now key value ttl s) key ≡ live t (some entry)
  unfolding view
  view-write_self t = rw get-write_self

  view-write_ne :
      (t : ℕ) (j : Text)
      → IsDistinct s.entries
      → j ≢ key
      → (view t (write now key value ttl s) j ≡ none)
        ⊎ (view t (write now key value ttl s) j ≡ view t s j)
  unfolding view
  view-write_ne t j d ne = ground (arith, get-write_ne j d ne)

  -- After a set the key has the new value until its lifetime is over and none later, whatever it
  -- had before. Another key has the value that it had, or was evicted and has none.
  pub set_lem :
      IsDistinct s.entries
      → ((t : ℕ) → view t (set now key value ttl s) key ≡ live t (some entry))
        × ((t : ℕ) (j : Text)
            → j ≢ key
            → (view t (set now key value ttl s) j ≡ none)
              ⊎ (view t (set now key value ttl s) j ≡ view t s j))
  unfolding set
  set_lem d = (view-write_self, λ t j ne. view-write_ne t j d ne)

  -- A set with room to spare evicts nothing: every other key has the value that it had.
  pub set_room :
      (t : ℕ) (j : Text)
      → length (OrderedMap.delete key s.entries) < s.max_entries
      → j ≢ key
      → view t (set now key value ttl s) j ≡ view t s j
  unfolding set view
  set_room t j room ne = ground (arith, get-write_room j room ne)

pub set_if_absent_taken :
    (now : ℕ) (key value : Text) (ttl : Option ℕ) (s : MemoryKvStore) (old : Text)
    → view now s key ≡ some old
    → ((set_if_absent now key value ttl s).0 ≡ false)
      × ((t : ℕ) (j : Text) → now ≤ t → view t (set_if_absent now key value ttl s).1 j ≡ view t s j)
unfolding set_if_absent
set_if_absent_taken now key value ttl s old h = (
  ground (arith, lookup-eq-view now key s),
  λ t j le. ground (arith, lookup-eq-view now key s, view-lookup now key s t j le),
)

pub set_if_absent_free :
    (now : ℕ) (key value : Text) (ttl : Option ℕ) (s : MemoryKvStore)
    → view now s key ≡ none
    → ((set_if_absent now key value ttl s).0 ≡ true)
      × ((t : ℕ)
          → view t (set_if_absent now key value ttl s).1 key
            ≡ live t (some (record { value = value; expires_at = expiry now ttl })))
unfolding set_if_absent
set_if_absent_free now key value ttl s h = (
  ground (arith, lookup-eq-view now key s),
  λ t.
      ground
        (arith, lookup-eq-view now key s, view-write_self now key value ttl (lookup now key s).1 t),
)

pub set_if_absent_others :
    (now : ℕ) (key value : Text) (ttl : Option ℕ) (s : MemoryKvStore)
    → IsDistinct (lookup now key s).1.entries
    → view now s key ≡ none
    → (t : ℕ) (j : Text) → j ≢ key
    → now ≤ t
    → (view t (set_if_absent now key value ttl s).1 j ≡ none)
      ⊎ (view t (set_if_absent now key value ttl s).1 j ≡ view t s j)
unfolding set_if_absent
set_if_absent_others now key value ttl s d h t j ne le = ground (
  arith,
  lookup-eq-view now key s,
  view-lookup now key s t j le,
  view-write_ne now key value ttl (lookup now key s).1 t j d ne,
)

-- A setIfAbsent succeeds exactly when the key has no value.
pub set_if_absent_iff :
    (now : ℕ) (key value : Text) (ttl : Option ℕ) (s : MemoryKvStore)
    → ((set_if_absent now key value ttl s).0 ≡ true) ↔ (view now s key ≡ none)
unfolding set_if_absent
set_if_absent_iff now key value ttl s = ground (arith, lookup-eq-view now key s)
