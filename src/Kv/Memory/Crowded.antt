-- ===== src/Kv/Memory/Crowded.antt =====
-- MemoryKvStore: the entries that were written behind a key, while it is there.
use encryption_gateway.Prelude.{
  ℕ, ◌+◌, ◌≤◌, ◌<◌, Text, text_eq, text_eq_iff, [], ◌∷◌, Option, Bool, true, false, if◌then◌else◌,
  length, ◌≡◌, ◌≢◌, refl, arith, ap, subst, ◌∙◌,
}
use encryption_gateway.OrderedMap
use encryption_gateway.OrderedMap.{OrderedMap, IsDistinct, has, delete_where}
use encryption_gateway.OrderedMap.Laws.{has-set, has-delete, delete_where-IsDistinct}
use encryption_gateway.Kv.Memory.{
  Entry, MemoryKvStore, is_expired, expiry, evict_oldest, evict_if_full, write,
}

-- How many entries have not expired at a time, and how many of them stand behind a key.
abbrev pub fresh : ℕ → OrderedMap Entry → ℕ
fresh t [] = 0
fresh t ((i, e) ∷ m) = let rest = fresh t m in if is_expired t e then rest else rest + 1

unfoldable pub behind : ℕ → Text → OrderedMap Entry → ℕ
behind t k [] = 0
behind t k ((i, e) ∷ m) = let rest = behind t k m in if text_eq i k then fresh t m else rest

length-fresh : (t : ℕ) (m : OrderedMap Entry) → fresh t m ≤ length m
length-fresh t [] = omega arith
length-fresh t ((i, e) ∷ m) = ground (arith, length-fresh t m)

pub length-behind :
    (t : ℕ) (k : Text) (m : OrderedMap Entry) → has k m ≡ true → behind t k m < length m
unfolding behind has OrderedMap.get
length-behind t k [] h = ground (arith, h)
length-behind t k ((i, e) ∷ m) h = ground (arith, length-fresh t m, length-behind t k m, h)

-- A sweep at an earlier time.
fresh-delete_where :
    (now t : ℕ) (m : OrderedMap Entry)
    → now ≤ t
    → fresh t (delete_where (is_expired now) m) ≡ fresh t m
unfolding delete_where
fresh-delete_where now t [] le = refl
fresh-delete_where now t ((i, e) ∷ m) le = ground (arith, fresh-delete_where now t m le, le)

has-delete_where :
    (test : Entry → Bool) (k : Text) (m : OrderedMap Entry)
    → has k (delete_where test m) ≡ true
    → has k m ≡ true
unfolding delete_where has OrderedMap.get
has-delete_where test k [] h = h
has-delete_where test k ((i, e) ∷ m) h = ground (arith, has-delete_where test k m, h)

behind-delete_where :
    (now t : ℕ) (k : Text) (m : OrderedMap Entry)
    → now ≤ t
    → IsDistinct m
    → has k (delete_where (is_expired now) m) ≡ true
    → behind t k (delete_where (is_expired now) m) ≡ behind t k m
unfolding delete_where has OrderedMap.get behind
behind-delete_where now t k [] le d h = refl
behind-delete_where now t k ((i, e) ∷ m) le d h = ground (
  arith,
  behind-delete_where now t k m le d.1,
  has-delete_where (is_expired now) k m,
  fresh-delete_where now t m le,
  text_eq_iff i k,
  d.0,
  h,
)

has-evict_oldest :
    (max : ℕ) (k : Text) (m : OrderedMap Entry) → has k (evict_oldest max m) ≡ true → has k m ≡ true
unfolding evict_oldest has OrderedMap.get
has-evict_oldest max k [] h = h
has-evict_oldest max k ((i, e) ∷ m) h = ground (arith, has-evict_oldest max k m, h)

behind-evict_oldest :
    (t max : ℕ) (k : Text) (m : OrderedMap Entry)
    → IsDistinct m
    → has k (evict_oldest max m) ≡ true
    → behind t k (evict_oldest max m) ≡ behind t k m
unfolding evict_oldest has OrderedMap.get behind
behind-evict_oldest t max k [] d h = refl
behind-evict_oldest t max k ((i, e) ∷ m) d h =
    ground
      (arith, behind-evict_oldest t max k m d.1, has-evict_oldest max k m, text_eq_iff i k, d.0, h)

-- Making room leaves the fresh entries behind a key that stays.
behind-evict_if_full :
    (now t : ℕ) (k : Text) (s : MemoryKvStore)
    → now ≤ t
    → IsDistinct s.entries
    → has k (evict_if_full now s).entries ≡ true
    → (has k s.entries ≡ true) × (behind t k (evict_if_full now s).entries ≡ behind t k s.entries)
unfolding evict_if_full
behind-evict_if_full now t k s le d h =
    let swept = delete_where (is_expired now) s.entries in
    ground (
      arith,
      behind-evict_oldest t s.max_entries k swept
          (delete_where-IsDistinct (is_expired now) s.entries d),
      has-evict_oldest s.max_entries k swept,
      behind-delete_where now t k s.entries le d,
      has-delete_where (is_expired now) k s.entries,
      h,
    )

-- A key that is not there is not deleted, and is written at the end.
delete_absent : (j : Text) (m : OrderedMap Entry) → has j m ≡ false → OrderedMap.delete j m ≡ m
unfolding OrderedMap.delete has OrderedMap.get
delete_absent j [] h = refl
delete_absent j ((i, e) ∷ m) h = ground (arith, delete_absent j m, h)

fresh-set :
    (t : ℕ) (j : Text) (e : Entry) (m : OrderedMap Entry)
    → has j m ≡ false
    → is_expired t e ≡ false
    → fresh t (OrderedMap.set j e m) ≡ fresh t m + 1
unfolding OrderedMap.set has OrderedMap.get
fresh-set t j e [] h f = ground (arith, f)
fresh-set t j e ((i, w) ∷ m) h f = ground (arith, fresh-set t j e m, h, f)

behind-set :
    (t : ℕ) (k j : Text) (e : Entry) (m : OrderedMap Entry)
    → has j m ≡ false
    → is_expired t e ≡ false
    → has k m ≡ true
    → behind t k (OrderedMap.set j e m) ≡ behind t k m + 1
unfolding OrderedMap.set has OrderedMap.get behind
behind-set t k j e [] h f there = ground (arith, there)
behind-set t k j e ((i, w) ∷ m) h f there =
    ground (
      arith,
      behind-set t k j e m,
      fresh-set t j e m,
      h,
      f,
      there,
      text_eq_iff i k,
      text_eq_iff i j,
    )

absent-evict_if_full :
    (now : ℕ) (j : Text) (s : MemoryKvStore)
    → has j s.entries ≡ false
    → has j (evict_if_full now s).entries ≡ false
unfolding evict_if_full
absent-evict_if_full now j s h =
    let swept = delete_where (is_expired now) s.entries in
    ground (
      arith,
      has-evict_oldest s.max_entries j swept,
      has-delete_where (is_expired now) j s.entries,
      h,
    )

-- A write of a key that is not there, with a lifetime that ends at `t` or later: where another key
-- is there after it, that key was there before, and one more fresh entry stands behind it.
pub behind-write :
    (now t : ℕ) (k j value : Text) (ttl : Option ℕ) (s : MemoryKvStore)
    → now ≤ t
    → is_expired t (record { value = value; expires_at = expiry now ttl }) ≡ false
    → j ≢ k
    → IsDistinct s.entries
    → has j s.entries ≡ false
    → has k (write now j value ttl s).entries ≡ true
    → (has k s.entries ≡ true)
      × (behind t k (write now j value ttl s).entries ≡ behind t k s.entries + 1)
unfolding write
behind-write now t k j value ttl s le alive ne d absent h =
    let e : Entry = record { value = value; expires_at = expiry now ttl } in
    let freed = evict_if_full now s in
    let put : has k (OrderedMap.set j e freed.entries) ≡ true =
      subst
        (λ m.
          has k (OrderedMap.set j e (evict_if_full now (record s { entries = m })).entries) ≡ true)
        (delete_absent j s.entries absent) h in
    let stayed : has k freed.entries ≡ true =
      ground (arith, put, has-set j k e freed.entries, text_eq_iff j k, ne) in
    let (there, same) = behind-evict_if_full now t k s le d stayed in
    (
      there,
      rw (delete_absent j s.entries absent) (
          behind-set t k j e freed.entries (absent-evict_if_full now j s absent) alive stayed
          ∙ ap (λ n. n + 1) same),
    )

-- A key that is not there stays absent while others are written.
pub absent-write :
    (now : ℕ) (j k value : Text) (ttl : Option ℕ) (s : MemoryKvStore)
    → j ≢ k
    → has k s.entries ≡ false
    → has k (write now j value ttl s).entries ≡ false
unfolding write
absent-write now j k value ttl s ne absent =
    let e : Entry = record { value = value; expires_at = expiry now ttl } in
    let cut : MemoryKvStore = record s { entries = OrderedMap.delete j s.entries } in
    ground (
      arith,
      has-set j k e (evict_if_full now cut).entries,
      absent-evict_if_full now k cut,
      has-delete j k s.entries,
      text_eq_iff j k,
      ne,
      absent,
    )
