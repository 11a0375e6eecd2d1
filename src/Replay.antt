-- ===== src/Replay.antt =====
-- common/replay-protection.service.ts: each nonce is accepted once inside the clock window. The
-- time of a call, Date.now(), is its argument.
pub mod Fresh
pub mod Bounds
pub mod Setup
pub mod Window
pub mod Ahead
pub mod Skew
use encryption_gateway.Prelude.{
  ℕ, ◌+◌, ◌*◌, ◌≤◌, Text, [], ◌∷◌, length, all, Option, none, some, Bool, false, not, ◌&&◌,
  if◌then◌else◌, ltb, leb, Result, ok, err, http,
}
use encryption_gateway.JsText.{is_digits}
use encryption_gateway.OrderedMap
use encryption_gateway.OrderedMap.{OrderedMap, IsDistinct}
use encryption_gateway.Runtime.{Json, num, str}
use encryption_gateway.Payload.{DecryptedPayload}

-- What the service does with JavaScript's numbers.
pub record Times (N : Type 0) : Type 0 where
  pub is_finite : N → Bool
  pub is_safe_integer : N → Bool
  -- value < 1e12, and value * 1000
  pub is_seconds : N → Bool
  pub times_1000 : N → N
  -- Number(text) of digits, and Date.parse(text), `none` for NaN
  pub number_of : Text → N
  pub date_parse : Text → Option N
  -- now - timestamp, Math.abs(n), and n > maxSkewMs
  pub minus : ℕ → N → N
  pub abs : N → N
  pub exceeds : N → ℕ → Bool

pub record ReplayProtection : Type 0 where
  pub is_required : Bool
  pub max_skew_ms : ℕ
  pub max_entries : ℕ
  -- nonce to time of expiry
  pub seen : OrderedMap ℕ

-- NONCE_PATTERN = /^[\x21-\x7e]{16,128}$/
unfoldable pub is_nonce : Text → Bool
is_nonce t = leb 16 (length t) && (leb (length t) 128 && all (λ c. leb 0x21 c && leb c 0x7e) t)

pub data NonceCheck : Type 0 where
  invalid : NonceCheck
  valid : Text → NonceCheck

module _ {N : Type 0} where
  unfoldable pub check_nonce : Option (Json N) → NonceCheck
  unfolding is_nonce
  check_nonce (some (str t)) = if is_nonce t then valid t else invalid
  check_nonce _ = invalid

-- seen.delete(seen.keys().next().value), where there is a first key
abbrev pub drop_first : OrderedMap ℕ → OrderedMap ℕ
drop_first [] = []
drop_first (e ∷ m) = m

module _ {N : Type 0} (T : Times N) where
  open T use {
    is_finite, is_safe_integer, is_seconds, times_1000, number_of, date_parse, minus, abs, exceeds,
  }

  abbrev pub milliseconds : N → N
  milliseconds n = if is_seconds n then times_1000 n else n

  unfoldable pub parse_timestamp : Option (Json N) → Option N
  unfolding is_digits
  parse_timestamp (some (num n)) = if is_finite n then some (milliseconds n) else none
  parse_timestamp (some (str t)) =
      if is_digits t
      then (if is_safe_integer (number_of t) then some (milliseconds (number_of t)) else none)
      else date_parse t
  parse_timestamp _ = none

  -- size < maxEntries / 2 as real numbers
  unfoldable pub sweep : ℕ → ReplayProtection → ReplayProtection
  sweep now s =
      if ltb (length s.seen * 2) s.max_entries
      then s
      else record s { seen = OrderedMap.delete_where (λ expires_at. leb expires_at now) s.seen }

  -- (this.seen.get(nonce) ?? 0) > now
  unfoldable pub is_replayed : Text → ℕ → ReplayProtection → Bool
  is_replayed nonce now s = elim (OrderedMap.get nonce s.seen) [
    | none ↦ false
    | some expires_at ↦ ltb now expires_at
  ]

  unfoldable pub remember : Text → ℕ → ReplayProtection → ReplayProtection
  remember nonce now s =
      let seen = OrderedMap.set nonce (now + s.max_skew_ms) s.seen in
      record s { seen = if ltb s.max_entries (length seen) then drop_first seen else seen }

  -- Math.abs(now - timestamp) > this.maxSkewMs
  abbrev pub is_off : ℕ → N → ℕ → Bool
  is_off now timestamp max_skew_ms = exceeds (abs (minus now timestamp)) max_skew_ms

  -- From a valid nonce and a timestamp in the window.
  unfoldable pub use_nonce : Text → ℕ → ReplayProtection → Result (Unit {0}) × ReplayProtection
  use_nonce nonce now s =
      let swept = sweep now s in
      if is_replayed nonce now swept
      then (err (http 400 "REQUEST_REPLAYED"), swept)
      else (ok tt, remember nonce now swept)

  unfoldable pub check_timestamp :
      Text → Option N → ℕ → ReplayProtection → Result (Unit {0}) × ReplayProtection
  check_timestamp nonce none now s = (err (http 400 "REQUEST_TIMESTAMP_INVALID"), s)
  check_timestamp nonce (some timestamp) now s =
      if is_off now timestamp s.max_skew_ms
      then (err (http 400 "REQUEST_EXPIRED"), s)
      else use_nonce nonce now s

  unfoldable pub check_fresh :
      NonceCheck → Option N → ℕ → ReplayProtection → Result (Unit {0}) × ReplayProtection
  check_fresh invalid timestamp now s = (err (http 400 "REQUEST_NONCE_INVALID"), s)
  check_fresh (valid nonce) timestamp now s = check_timestamp nonce timestamp now s

  unfoldable pub assert_fresh :
      DecryptedPayload N → ℕ → ReplayProtection → Result (Unit {0}) × ReplayProtection
  assert_fresh payload now s =
      if not s.is_required
      then (ok tt, s)
      else check_fresh (check_nonce payload.nonce) (parse_timestamp payload.timestamp) now s

-- The nonces are distinct, and the cache holds at most `max_entries` of them.
pub record IsValid (s : ReplayProtection) : Type 0 where
  pub distinct : IsDistinct s.seen
  pub bounded : length s.seen ≤ s.max_entries
