-- ===== src/RateLimit/Bounds.antt =====
-- RateLimitGuard: the map of windows stays within its cap, whatever addresses the clients have.
use encryption_gateway.Prelude.{ℕ, ◌+◌, Text, text_eq_iff, length, true, false, leb, ◌≡◌, arith}
use encryption_gateway.OrderedMap
use encryption_gateway.OrderedMap.{OrderedMap}
use encryption_gateway.OrderedMap.Laws.{
  length-set, set-IsDistinct, length-delete_where, delete_where-IsDistinct, length-delete_where-has,
  has-set,
}
use encryption_gateway.RateLimit.{
  Entry, RateLimit, overflow, sweep, bucket, hit, count_client, IsValid,
}

sweep-IsValid : (now : ℕ) (s : RateLimit) → IsValid s → IsValid (sweep now s)
unfolding sweep
sweep-IsValid now s v =
    let old = λ (e : Entry). leb e.reset_at now in
    ground (
      arith,
      v.reserved,
      length-delete_where old s.hits,
      length-delete_where-has old overflow s.hits,
      delete_where-IsDistinct old s.hits v.distinct,
    )

-- A key that is in the map may be written; so may the overflow key, and any key where two places
-- are free.
write_IsValid :
    (key : Text) (e : Entry) (s : RateLimit)
    → IsValid s
    → (OrderedMap.has key s.hits ≡ false
        → leb s.max_entries (length s.hits + 1) ≡ true
        → key ≡ overflow)
    → IsValid (record s { hits = OrderedMap.set key e s.hits })
write_IsValid key e s v fits = ground (
  arith,
  v.reserved,
  fits,
  length-set key e s.hits,
  set-IsDistinct key e s.hits v.distinct,
  has-set key overflow e s.hits,
  text_eq_iff key overflow,
)

bucket_fits :
    (client : Text) (s : RateLimit)
    → OrderedMap.has (bucket client s) s.hits ≡ false
    → leb s.max_entries (length s.hits + 1) ≡ true
    → bucket client s ≡ overflow
unfolding bucket
bucket_fits client s h full = ground arith

hit-IsValid :
    (client : Text) (now : ℕ) (s : RateLimit) → IsValid s → IsValid (hit (bucket client s) now s).1
unfolding hit
hit-IsValid client now s v = write_IsValid (bucket client s) _ s v (bucket_fits client s)

-- Counting a request keeps the windows within the cap: the keys stay distinct, the map holds at
-- most `max_entries` of them, and one place stays free for the overflow bucket until it is used.
pub count_client-IsValid :
    (client : Text) (now : ℕ) (s : RateLimit) → IsValid s → IsValid (count_client client now s).1
unfolding count_client
count_client-IsValid client now s v = hit-IsValid client now (sweep now s) (sweep-IsValid now s v)
