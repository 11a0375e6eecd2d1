-- ===== src/Kv/Memory.antt =====
-- The class MemoryKvStore of attestation/kv.store.ts. An operation takes one time, for all the
-- calls of Date.now() that it makes between two waits; a lifetime or a time of expiry that is
-- Infinity is `none`.
pub mod Eviction
pub mod AsPort
pub mod Bounds
pub mod Crowded
pub mod Views
pub mod Refines
use encryption_gateway.Prelude.{
  ℕ, ◌+◌, ◌≤◌, Text, [], ◌∷◌, Option, none, some, Bool, true, false, if◌then◌else◌, ltb, leb,
  length,
}
use encryption_gateway.OrderedMap
use encryption_gateway.OrderedMap.{OrderedMap, IsDistinct}

pub record Entry : Type 0 where
  pub value : Text
  pub expires_at : Option ℕ

pub record MemoryKvStore : Type 0 where
  pub entries : OrderedMap Entry
  pub max_entries : ℕ

abbrev pub empty : ℕ → MemoryKvStore
empty max = record { entries = []; max_entries = max }

-- Date.now() > entry.expiresAt
abbrev pub is_expired : ℕ → Entry → Bool
is_expired now e = elim e.expires_at [ none ↦ false | some t ↦ ltb t now ]

-- Date.now() + ttlMs
abbrev pub expiry : ℕ → Option ℕ → Option ℕ
expiry now none = none
expiry now (some ttl) = some (now + ttl)

unfoldable pub lookup_entry : ℕ → Text → MemoryKvStore → Option Entry → Option Text × MemoryKvStore
lookup_entry now key s none = (none, s)
lookup_entry now key s (some e) =
    if is_expired now e
    then (none, record s { entries = OrderedMap.delete key s.entries })
    else (some e.value, s)

unfoldable pub lookup : ℕ → Text → MemoryKvStore → Option Text × MemoryKvStore
unfolding lookup_entry
lookup now key s = lookup_entry now key s (OrderedMap.get key s.entries)

-- while (size >= max) delete the oldest
unfoldable pub evict_oldest : ℕ → OrderedMap Entry → OrderedMap Entry
evict_oldest max [] = []
evict_oldest max (x ∷ m) =
    let rest = evict_oldest max m in if leb max (length (x ∷ m)) then rest else x ∷ m

unfoldable pub evict_if_full : ℕ → MemoryKvStore → MemoryKvStore
evict_if_full now s = if ltb (length s.entries) s.max_entries then s else record s {
  entries = evict_oldest s.max_entries (OrderedMap.delete_where (is_expired now) s.entries);
}

unfoldable pub write : ℕ → Text → Text → Option ℕ → MemoryKvStore → MemoryKvStore
write now key value ttl s =
    let freed = evict_if_full now (record s { entries = OrderedMap.delete key s.entries }) in
    record freed {
      entries =
          OrderedMap.set key (record { value = value; expires_at = expiry now ttl }) freed.entries;
    }

unfoldable pub get : ℕ → Text → MemoryKvStore → Option Text × MemoryKvStore
get now key s = lookup now key s

unfoldable pub set : ℕ → Text → Text → Option ℕ → MemoryKvStore → MemoryKvStore
set now key value ttl s = write now key value ttl s

unfoldable pub set_if_absent : ℕ → Text → Text → Option ℕ → MemoryKvStore → Bool × MemoryKvStore
set_if_absent now key value ttl s =
    let (found, looked) = lookup now key s in
    elim found [ none ↦ (true, write now key value ttl looked) | some _ ↦ (false, looked) ]

unfoldable pub get_delete : ℕ → Text → MemoryKvStore → Option Text × MemoryKvStore
get_delete now key s =
    let (found, looked) = lookup now key s in
    (found, record looked { entries = OrderedMap.delete key looked.entries })

unfoldable pub delete : Text → MemoryKvStore → Bool × MemoryKvStore
delete key s =
    (OrderedMap.has key s.entries, record s { entries = OrderedMap.delete key s.entries })

-- What a client can see at a time: the values that have not expired.
abbrev pub live : ℕ → Option Entry → Option Text
live now none = none
live now (some e) = if is_expired now e then none else some e.value

unfoldable pub view : ℕ → MemoryKvStore → Text → Option Text
view now s key = live now (OrderedMap.get key s.entries)

-- The keys are distinct, and the cap holds.
pub record IsValid (s : MemoryKvStore) : Type 0 where
  pub distinct : IsDistinct s.entries
  pub bounded : length s.entries ≤ s.max_entries
  pub capacity : 1 ≤ s.max_entries
