-- ===== src/RateLimit/Windows.antt =====
-- RateLimitGuard: how many requests of a client pass in one window.
use encryption_gateway.Prelude.{
  one_if, ℕ, ◌+◌, ◌-◌, ◌≤◌, ◌<◌, Text, text_eq_iff, text_eq_refl, text_eq, List, [], ◌∷◌, length,
  Option, none, some, leb, ◌≡◌, ◌≢◌, arith, if◌then◌else◌, All, Bool-cases, inl, inr, ◌&&◌,
}
use encryption_gateway.OrderedMap
use encryption_gateway.OrderedMap.{OrderedMap, IsDistinct}
use encryption_gateway.OrderedMap.Laws.{
  get-set, get-delete_where, set-IsDistinct, delete_where-IsDistinct, length-delete_where,
}
use encryption_gateway.RateLimit.{
  Entry, RateLimit, overflow, sweep, bucket, current, counted, verdict, hit, count_client,
}

-- The client has a window that is open: `n` requests were counted in it, and it ends at `r`.
pub record IsOpen (client : Text) (n r : ℕ) (s : RateLimit) : Type 0 where
  pub distinct : IsDistinct s.hits
  pub found : OrderedMap.get client s.hits ≡ some (record { count = n; reset_at = r })

sweep-IsOpen :
    (client : Text) (n r now : ℕ) (s : RateLimit)
    → now < r
    → IsOpen client n r s
    → IsOpen client n r (sweep now s)
unfolding sweep
sweep-IsOpen client n r now s early o =
    let old = λ (e : Entry). leb e.reset_at now in
    ground (
      arith,
      get-delete_where old client s.hits o.distinct,
      delete_where-IsDistinct old s.hits o.distinct,
    )

-- A client with a window is counted in it.
bucket_open :
    (client : Text) (n r : ℕ) (s : RateLimit) → IsOpen client n r s → bucket client s ≡ client
unfolding bucket OrderedMap.has
bucket_open client n r s o = ground (arith, o.found)

hit-IsOpen :
    (client : Text) (n r now : ℕ) (s : RateLimit)
    → now < r
    → IsOpen client n r s
    → ((hit client now s).0.is_allowed ≡ leb (n + 1) s.limit)
      × IsOpen client (n + 1) r (hit client now s).1
unfolding hit current verdict
hit-IsOpen client n r now s early o =
    let e : Entry = record { count = n + 1; reset_at = r } in
    ground (
      arith,
      o.found,
      get-set client client e s.hits,
      text_eq_refl client,
      set-IsDistinct client e s.hits o.distinct,
    )

hit_other :
    (key client : Text) (n r now : ℕ) (s : RateLimit)
    → key ≢ client
    → IsOpen client n r s
    → IsOpen client n r (hit key now s).1
unfolding hit
hit_other key client n r now s ne o =
    let e = counted (current now s.ttl_ms (OrderedMap.get key s.hits)) in
    ground (
      arith,
      o.found,
      get-set key client e s.hits,
      text_eq_iff key client,
      set-IsDistinct key e s.hits o.distinct,
    )

limit-sweep :
    (now : ℕ) (s : RateLimit) → ((sweep now s).limit ≡ s.limit) × ((sweep now s).ttl_ms ≡ s.ttl_ms)
unfolding sweep
limit-sweep now s = ground arith

limit-count_client :
    (client : Text) (now : ℕ) (s : RateLimit) → (count_client client now s).1.limit ≡ s.limit
unfolding count_client hit
limit-count_client client now s = (limit-sweep now s).0

-- A request of the client in its window: the count goes up, and the limit decides.
same_client :
    (client : Text) (n r now : ℕ) (s : RateLimit)
    → now < r
    → IsOpen client n r s
    → ((count_client client now s).0.is_allowed ≡ leb (n + 1) s.limit)
      × IsOpen client (n + 1) r (count_client client now s).1
unfolding count_client
same_client client n r now s early o =
    let swept = sweep-IsOpen client n r now s early o in
    rw (bucket_open client n r (sweep now s) swept)
      (ground (arith, hit-IsOpen client n r now (sweep now s) early swept, limit-sweep now s))

bucket_cases :
    (other client : Text) (s : RateLimit)
    → other ≢ client
    → overflow ≢ client
    → bucket other s ≢ client
unfolding bucket
bucket_cases other client s ne apart = ground arith

-- A request of another client leaves the window as it is.
other_client :
    (other client : Text) (n r now : ℕ) (s : RateLimit)
    → other ≢ client
    → overflow ≢ client
    → now < r
    → IsOpen client n r s
    → IsOpen client n r (count_client other now s).1
unfolding count_client
other_client other client n r now s ne apart early o =
    hit_other (bucket other (sweep now s)) client n r now (sweep now s)
      (bucket_cases other client (sweep now s) ne apart) (sweep-IsOpen client n r now s early o)

abbrev pub min : ℕ → ℕ → ℕ
min a b = if leb a b then a else b

-- Of requests, each with its client and time: how many are the client's, and how many of those
-- are let through.
abbrev pub requests_of : Text → List (Text × ℕ) → ℕ
requests_of client [] = 0
requests_of client ((c, now) ∷ rest) = one_if (text_eq c client) + requests_of client rest

abbrev pub allowed_of : Text → List (Text × ℕ) → RateLimit → ℕ
allowed_of client [] s = 0
allowed_of client ((c, now) ∷ rest) s =
    one_if (text_eq c client && (count_client c now s).0.is_allowed)
    + allowed_of client rest (count_client c now s).1

allowed_open :
    (client : Text) (requests : List (Text × ℕ)) (n r : ℕ) (s : RateLimit)
    → overflow ≢ client
    → All (λ q. q.1 < r) requests
    → IsOpen client n r s
    → allowed_of client requests s ≡ min (requests_of client requests) (s.limit - n)
allowed_open client [] n r s apart early o = ground arith
allowed_open client ((c, now) ∷ rest) n r s apart (early, later) o =
    elim (Bool-cases (text_eq c client)) [
      | inl same ↦
          let (allowed, open_window) = same_client client n r now s early o in
          rw ((text_eq_iff c client).0 same, text_eq_refl client)
            (ground (
              arith,
              allowed,
              limit-count_client client now s,
              allowed_open client rest (n + 1) r (count_client client now s).1 apart later
                  open_window,
            ))
      | inr other ↦
          let ne : c ≢ client = λ e. ground (arith, (text_eq_iff c client).1 e) in
          ground (
            arith,
            other,
            limit-count_client c now s,
            allowed_open client rest n r (count_client c now s).1 apart later
                (other_client c client n r now s ne apart early o),
          )
    ]

-- The client has no window, or one that is over.
abbrev pub IsClosed : ℕ → Option Entry → Type 0
IsClosed now none = Unit
IsClosed now (some e) = e.reset_at ≤ now

sweep-IsClosed :
    (client : Text) (now : ℕ) (s : RateLimit)
    → IsDistinct s.hits
    → IsClosed now (OrderedMap.get client s.hits)
    → IsClosed now (OrderedMap.get client (sweep now s).hits)
unfolding sweep
sweep-IsClosed client now s d c =
    ground (arith, c, get-delete_where (λ (e : Entry). leb e.reset_at now) client s.hits d)

sweep_room :
    (now : ℕ) (s : RateLimit)
    → length s.hits + 1 < s.max_entries
    → length (sweep now s).hits + 1 < (sweep now s).max_entries
unfolding sweep
sweep_room now s room =
    ground (arith, length-delete_where (λ (e : Entry). leb e.reset_at now) s.hits)

sweep-IsDistinct : (now : ℕ) (s : RateLimit) → IsDistinct s.hits → IsDistinct (sweep now s).hits
unfolding sweep
sweep-IsDistinct now s d =
    ground (arith, delete_where-IsDistinct (λ (e : Entry). leb e.reset_at now) s.hits d)

bucket_room :
    (client : Text) (s : RateLimit) → length s.hits + 1 < s.max_entries → bucket client s ≡ client
unfolding bucket
bucket_room client s room = ground arith

hit_closed :
    (client : Text) (now : ℕ) (s : RateLimit)
    → IsDistinct s.hits
    → IsClosed now (OrderedMap.get client s.hits)
    → ((hit client now s).0.is_allowed ≡ leb 1 s.limit)
      × IsOpen client 1 (now + s.ttl_ms) (hit client now s).1
unfolding hit current verdict
hit_closed client now s d c =
    let e : Entry = record { count = 1; reset_at = now + s.ttl_ms } in
    ground (
      arith,
      c,
      get-set client client e s.hits,
      text_eq_refl client,
      set-IsDistinct client e s.hits d,
    )

-- A request with no window opens one.
opens :
    (client : Text) (now : ℕ) (s : RateLimit)
    → IsDistinct s.hits
    → IsClosed now (OrderedMap.get client s.hits)
    → length s.hits + 1 < s.max_entries
    → ((count_client client now s).0.is_allowed ≡ leb 1 s.limit)
      × IsOpen client 1 (now + s.ttl_ms) (count_client client now s).1
unfolding count_client
opens client now s d c room = rw (bucket_room client (sweep now s) (sweep_room now s room)) (
    ground (
      arith,
      limit-sweep now s,
      hit_closed client now (sweep now s) (sweep-IsDistinct now s d)
          (sweep-IsClosed client now s d c),
    ))

-- A client without an open window, whose key is not that of the overflow bucket, makes a request
-- while the map has room to spare. Of this request and of all later ones before the end of the
-- window that it opens, in any mix with those of other clients, exactly as many of the client's
-- are let through as it makes, up to the limit.
pub window_limit :
    (client : Text) (now : ℕ) (requests : List (Text × ℕ)) (s : RateLimit)
    → IsDistinct s.hits
    → overflow ≢ client
    → IsClosed now (OrderedMap.get client s.hits)
    → length s.hits + 1 < s.max_entries
    → All (λ q. q.1 < now + s.ttl_ms) requests
    → allowed_of client ((client, now) ∷ requests) s ≡ min (1 + requests_of client requests) s.limit
window_limit client now requests s d apart c room early =
    let (allowed, o) = opens client now s d c room in
    rw (text_eq_refl client) (
      ground (
        arith,
        allowed,
        limit-count_client client now s,
        allowed_open client requests 1 (now + s.ttl_ms) (count_client client now s).1 apart early o,
      ))
