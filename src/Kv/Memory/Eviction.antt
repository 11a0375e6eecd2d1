-- ===== src/Kv/Memory/Eviction.antt =====
-- MemoryKvStore.evictIfFull: what it leaves.
use encryption_gateway.Prelude.{
  ℕ, ◌≤◌, ◌<◌, Text, text_eq_iff, [], ◌∷◌, none, ◌≡◌, ◌⊎◌, inl, refl, length, arith,
}
use encryption_gateway.OrderedMap
use encryption_gateway.OrderedMap.{OrderedMap, IsDistinct}
use encryption_gateway.OrderedMap.Laws.{
  get-delete_where, delete_where-IsDistinct, get_none-delete_where,
}
use encryption_gateway.Kv.Memory.{Entry, MemoryKvStore, is_expired, evict_oldest, evict_if_full}

length-evict_oldest : (max : ℕ) (m : OrderedMap Entry) → 1 ≤ max → length (evict_oldest max m) < max
unfolding evict_oldest
length-evict_oldest max [] h = omega arith
length-evict_oldest max (x ∷ m) h = ground (arith, length-evict_oldest max m h)

evict_oldest-IsDistinct :
    (max : ℕ) (m : OrderedMap Entry) → IsDistinct m → IsDistinct (evict_oldest max m)
unfolding evict_oldest
evict_oldest-IsDistinct max [] d = tt
evict_oldest-IsDistinct max (x ∷ m) d = ground (arith, evict_oldest-IsDistinct max m d.1)

get_none-evict_oldest :
    (max : ℕ) (j : Text) (m : OrderedMap Entry)
    → OrderedMap.get j m ≡ none
    → OrderedMap.get j (evict_oldest max m) ≡ none
unfolding evict_oldest OrderedMap.get
get_none-evict_oldest max j [] h = refl
get_none-evict_oldest max j ((i, w) ∷ m) h = ground (arith, get_none-evict_oldest max j m)

-- The loop drops an entry or leaves it as it is.
get-evict_oldest :
    (max : ℕ) (j : Text) (m : OrderedMap Entry)
    → IsDistinct m
    → (OrderedMap.get j (evict_oldest max m) ≡ none)
      ⊎ (OrderedMap.get j (evict_oldest max m) ≡ OrderedMap.get j m)
unfolding evict_oldest OrderedMap.has OrderedMap.get
get-evict_oldest max j [] d = inl refl
get-evict_oldest max j ((i, w) ∷ m) d =
    ground (arith, get-evict_oldest max j m d.1, get_none-evict_oldest max j m, text_eq_iff i j)

module _ (now : ℕ) (s : MemoryKvStore) where
  pub evict_if_full-IsDistinct : IsDistinct s.entries → IsDistinct (evict_if_full now s).entries
  unfolding evict_if_full
  evict_if_full-IsDistinct d = ground (
    arith,
    evict_oldest-IsDistinct s.max_entries (OrderedMap.delete_where (is_expired now) s.entries)
        (delete_where-IsDistinct (is_expired now) s.entries d),
  )

  pub evict_if_full_room : 1 ≤ s.max_entries → length (evict_if_full now s).entries < s.max_entries
  unfolding evict_if_full
  evict_if_full_room h = ground (
    arith,
    length-evict_oldest s.max_entries (OrderedMap.delete_where (is_expired now) s.entries) h,
  )

  pub max_entries-evict_if_full : (evict_if_full now s).max_entries ≡ s.max_entries
  unfolding evict_if_full
  max_entries-evict_if_full = ground arith

  pub get-evict_if_full :
      (j : Text)
      → IsDistinct s.entries
      → (OrderedMap.get j (evict_if_full now s).entries ≡ none)
        ⊎ (OrderedMap.get j (evict_if_full now s).entries ≡ OrderedMap.get j s.entries)
  unfolding evict_if_full
  get-evict_if_full j d =
      let live = OrderedMap.delete_where (is_expired now) s.entries in
      ground (
        arith,
        get-evict_oldest s.max_entries j live
            (delete_where-IsDistinct (is_expired now) s.entries d),
        get-delete_where (is_expired now) j s.entries d,
      )

  -- A key with no entry has none after the eviction. This wants no distinct keys.
  pub evict_if_full-none :
      (j : Text)
      → OrderedMap.get j s.entries ≡ none
      → OrderedMap.get j (evict_if_full now s).entries ≡ none
  unfolding evict_if_full
  evict_if_full-none j h =
      let live = OrderedMap.delete_where (is_expired now) s.entries in
      ground (
        arith,
        get_none-evict_oldest s.max_entries j live,
        get_none-delete_where (is_expired now) j s.entries,
      )

  pub evict_if_full_of_room : length s.entries < s.max_entries → evict_if_full now s ≡ s
  unfolding evict_if_full
  evict_if_full_of_room h = ground arith
