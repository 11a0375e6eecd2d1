-- ===== src/RateLimit.antt =====
-- common/rate-limit.guard.ts: a fixed window per client. The time of a call, Date.now(), is its
-- argument, and so is the metadata that skips the guard. The map holds its entries by value: the
-- increment of an entry is written back.
pub mod Bounds
pub mod Setup
pub mod Windows
use encryption_gateway.Prelude.{
  ℕ, ◌+◌, ◌-◌, ◌/◌, ◌≤◌, Text, codes, ◌∷◌, length, Option, none, some, Bool, true, false, not, ◌&&◌,
  if◌then◌else◌, ltb, leb, ◌≡◌,
}
use encryption_gateway.OrderedMap
use encryption_gateway.OrderedMap.{OrderedMap, IsDistinct}
use encryption_gateway.ClientIp.{client_ip_key}

pub record Entry : Type 0 where
  pub count : ℕ
  pub reset_at : ℕ

pub record RateLimit : Type 0 where
  pub ttl_ms : ℕ
  pub limit : ℕ
  pub max_entries : ℕ
  pub hits : OrderedMap Entry
  pub next_sweep_at : ℕ

-- The headers that the guard sets, and whether it lets the request through; `retry_after` is set
-- where it throws 429.
pub record Verdict : Type 0 where
  pub is_allowed : Bool
  pub limit : ℕ
  pub remaining : ℕ
  pub reset_seconds : ℕ
  pub retry_after : Option ℕ

-- '\u0000rate-limit-overflow'
unfoldable pub overflow : Text
overflow = 0 ∷ codes "rate-limit-overflow"

unfoldable pub sweep : ℕ → RateLimit → RateLimit
sweep now s = if ltb now s.next_sweep_at then s else record s {
  next_sweep_at = now + s.ttl_ms;
  hits = OrderedMap.delete_where (λ e. leb e.reset_at now) s.hits;
}

-- A client that has no entry is counted with all others that have none, once the map is full.
-- size >= maxEntries - 1 on whole numbers, where maxEntries may be 1.
unfoldable pub bucket : Text → RateLimit → Text
bucket key s =
    if not (OrderedMap.has key s.hits) && leb s.max_entries (length s.hits + 1)
    then overflow
    else key

-- The entry of the current window.
unfoldable pub current : ℕ → ℕ → Option Entry → Entry
current now ttl_ms none = record { count = 0; reset_at = now + ttl_ms }
current now ttl_ms (some e) =
    if leb e.reset_at now then record { count = 0; reset_at = now + ttl_ms } else e

-- Math.ceil((resetAt - now) / 1000)
abbrev pub seconds : ℕ → ℕ → ℕ
seconds reset_at now = (reset_at - now + 999) / 1000

abbrev counted : Entry → Entry
counted e = record e { count = e.count + 1 }

unfoldable pub verdict : ℕ → ℕ → Entry → Verdict
verdict limit now e = record {
  is_allowed = leb e.count limit;
  limit = limit;
  remaining = limit - e.count;
  reset_seconds = seconds e.reset_at now;
  retry_after = if leb e.count limit then none else some (seconds e.reset_at now);
}

-- From the key of the client on, after the sweep.
unfoldable pub hit : Text → ℕ → RateLimit → Verdict × RateLimit
hit key now s =
    let entry = counted (current now s.ttl_ms (OrderedMap.get key s.hits)) in
    (verdict s.limit now entry, record s { hits = OrderedMap.set key entry s.hits })

unfoldable pub count_client : Text → ℕ → RateLimit → Verdict × RateLimit
count_client client now s = let swept = sweep now s in hit (bucket client swept) now swept

-- left ?? right
abbrev pub or_else : Option Text → Option Text → Option Text
or_else none r = r
or_else (some t) r = some t

-- `none` where the route is exempt.
unfoldable pub can_activate :
    (lower : Text → Text) (is_ip : Text → ℕ)
    → Bool
    → Option Text
    → Option Text
    → ℕ
    → RateLimit
    → Option Verdict × RateLimit
can_activate lower is_ip true ip remote now s = (none, s)
can_activate lower is_ip false ip remote now s =
    let (v, t) = count_client (client_ip_key lower is_ip (or_else ip remote)) now s in (some v, t)

-- The keys are distinct and the cap holds; all but the overflow bucket leave one place free.
pub record IsValid (s : RateLimit) : Type 0 where
  pub distinct : IsDistinct s.hits
  pub bounded : length s.hits ≤ s.max_entries
  pub reserved : OrderedMap.has overflow s.hits ≡ false → length s.hits + 1 ≤ s.max_entries
