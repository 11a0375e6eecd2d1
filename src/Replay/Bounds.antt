-- ===== src/Replay/Bounds.antt =====
-- ReplayProtectionService: the cache stays within its cap.
use encryption_gateway.Prelude.{ℕ, ◌+◌, Text, Option, none, some, leb, arith}
use encryption_gateway.OrderedMap
use encryption_gateway.OrderedMap.{OrderedMap}
use encryption_gateway.OrderedMap.Laws.{
  length-set, set-IsDistinct, length-delete_where, delete_where-IsDistinct,
}
use encryption_gateway.Payload.{DecryptedPayload}
use encryption_gateway.Replay.{
  Times, ReplayProtection, valid, invalid, check_nonce, parse_timestamp, sweep, remember, use_nonce,
  check_timestamp, check_fresh, assert_fresh, NonceCheck, IsValid,
}

module _ {N : Type 0} (T : Times N) (now : ℕ) (s : ReplayProtection) (v : IsValid s) where
  pub sweep-IsValid : IsValid (sweep T now s)
  unfolding sweep
  sweep-IsValid =
      let old = λ (e : ℕ). leb e now in
      ground (arith, length-delete_where old s.seen, delete_where-IsDistinct old s.seen v.distinct)

  remember-IsValid : (nonce : Text) → IsValid (remember T nonce now s)
  unfolding remember
  remember-IsValid nonce =
      let seen = OrderedMap.set nonce (now + s.max_skew_ms) s.seen in
      ground (
        arith,
        length-set nonce (now + s.max_skew_ms) s.seen,
        set-IsDistinct nonce (now + s.max_skew_ms) s.seen v.distinct,
      )

module _ {N : Type 0} (T : Times N) where
  use_nonce-IsValid :
      (nonce : Text) (now : ℕ) (s : ReplayProtection)
      → IsValid s
      → IsValid (use_nonce T nonce now s).1
  unfolding use_nonce
  use_nonce-IsValid nonce now s v =
      let swept = sweep-IsValid T now s v in
      ground (arith, remember-IsValid T now (sweep T now s) swept nonce)

  check_fresh-IsValid :
      (n : NonceCheck) (t : Option N) (now : ℕ) (s : ReplayProtection)
      → IsValid s
      → IsValid (check_fresh T n t now s).1
  unfolding check_fresh check_timestamp
  check_fresh-IsValid invalid t now s v = v
  check_fresh-IsValid (valid nonce) none now s v = v
  check_fresh-IsValid (valid nonce) (some t) now s v =
      ground (arith, use_nonce-IsValid nonce now s v)

  -- Every request leaves a cache with distinct nonces, of at most `max_entries` of them, whatever
  -- the outcome of its check.
  pub assert_fresh-IsValid :
      (payload : DecryptedPayload N) (now : ℕ) (s : ReplayProtection)
      → IsValid s
      → IsValid (assert_fresh T payload now s).1
  unfolding assert_fresh
  assert_fresh-IsValid payload now s v = ground (
    arith,
    check_fresh-IsValid (check_nonce payload.nonce) (parse_timestamp T payload.timestamp) now s v,
  )
