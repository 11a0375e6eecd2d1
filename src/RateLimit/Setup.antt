-- ===== src/RateLimit/Setup.antt =====
-- The constructor of RateLimitGuard, and the guard from its start on.
use encryption_gateway.Prelude.{
  ℕ, Text, List, [], ◌∷◌, Result, ok, ◌>>=◌, ◌≡◌, arith, >>=-eq-ok, subst,
}
use encryption_gateway.Config.{Config, positive_integer}
use encryption_gateway.Config.Checked.{positive_integer-ge_one}
use encryption_gateway.RateLimit.{RateLimit, IsValid, count_client, hit, sweep}
use encryption_gateway.RateLimit.Bounds.{count_client-IsValid}

unfoldable pub rate_limit : Config → Result RateLimit
rate_limit config = do
  ttl_ms ← positive_integer config "THROTTLE_TTL_MS" 60000
  limit ← positive_integer config "THROTTLE_LIMIT" 60
  max_entries ← positive_integer config "THROTTLE_MAX_ENTRIES" 10000
  ok (record {
    ttl_ms = ttl_ms;
    limit = limit;
    max_entries = max_entries;
    hits = [];
    next_sweep_at = 0;
  })

-- After the requests of a list.
abbrev pub after_all : List (Text × ℕ) → RateLimit → RateLimit
after_all [] s = s
after_all ((client, now) ∷ requests) s = after_all requests (count_client client now s).1

-- The guard's state from its start on: the counts are within the cap, and the limits are those of
-- the configuration, each 1 at least.
pub record IsRunning (config : Config) (s : RateLimit) : Type 0 where
  pub valid : IsValid s
  pub ttl_is : positive_integer config "THROTTLE_TTL_MS" 60000 ≡ ok s.ttl_ms
  pub limit_is : positive_integer config "THROTTLE_LIMIT" 60 ≡ ok s.limit
  pub max_is : positive_integer config "THROTTLE_MAX_ENTRIES" 10000 ≡ ok s.max_entries

rate_limit-IsRunning :
    (config : Config) (s : RateLimit) → rate_limit config ≡ ok s → IsRunning config s
unfolding rate_limit
rate_limit-IsRunning config s h =
    let (ttl, ttl_is, h1) = >>=-eq-ok (positive_integer config "THROTTLE_TTL_MS" 60000) _ h in
    let (limit, limit_is, h2) = >>=-eq-ok (positive_integer config "THROTTLE_LIMIT" 60) _ h1 in
    let (max, max_is, last) =
      >>=-eq-ok (positive_integer config "THROTTLE_MAX_ENTRIES" 10000) _ h2 in
    let made : record {
      ttl_ms = ttl;
      limit = limit;
      max_entries = max;
      hits = [];
      next_sweep_at = 0;
    }
        ≡ s =
      ground (arith, last) in
    let room =
      positive_integer-ge_one config "THROTTLE_MAX_ENTRIES" 10000 max (omega arith) max_is in
    subst (IsRunning config) made (record {
      valid = record { distinct = tt; bounded = ground arith; reserved = λ u. room };
      ttl_is = ttl_is;
      limit_is = limit_is;
      max_is = max_is;
    })

count_client-settings :
    (client : Text) (now : ℕ) (s : RateLimit)
    → ((count_client client now s).1.ttl_ms ≡ s.ttl_ms)
      × ((count_client client now s).1.limit ≡ s.limit)
      × ((count_client client now s).1.max_entries ≡ s.max_entries)
unfolding count_client hit sweep
count_client-settings client now s = ground arith

count_client-IsRunning :
    (config : Config) (client : Text) (now : ℕ) (s : RateLimit)
    → IsRunning config s
    → IsRunning config (count_client client now s).1
count_client-IsRunning config client now s r =
    let (ttl, limit, max) = count_client-settings client now s in
    record {
      valid = count_client-IsValid client now s r.valid;
      ttl_is = rw ttl r.ttl_is;
      limit_is = rw limit r.limit_is;
      max_is = rw max r.max_is;
    }

after_all-IsRunning :
    (config : Config) (requests : List (Text × ℕ)) (s : RateLimit)
    → IsRunning config s
    → IsRunning config (after_all requests s)
after_all-IsRunning config [] s r = r
after_all-IsRunning config ((client, now) ∷ requests) s r =
    after_all-IsRunning config requests (count_client client now s).1
      (count_client-IsRunning config client now s r)

-- A guard that starts with a configuration keeps, through any requests at any times, the limits of
-- that configuration, and its map stays within the configured size, one place being kept for the
-- bucket that clients share.
pub after_all-rate_limit :
    (config : Config) (s : RateLimit) (requests : List (Text × ℕ))
    → rate_limit config ≡ ok s
    → IsRunning config (after_all requests s)
after_all-rate_limit config s requests h =
    after_all-IsRunning config requests s (rate_limit-IsRunning config s h)
