-- ===== src/Replay/Fresh.antt =====
-- ReplayProtectionService.assertFresh: when a request is accepted, and with what error it is
-- refused else.
use encryption_gateway.Prelude.{
  ℕ, Text, Option, none, some, leb, Result, ok, err, http, ◌≡◌, arith, if◌then◌else◌, refl,
}
use encryption_gateway.OrderedMap.{IsDistinct}
use encryption_gateway.OrderedMap.Laws.{get-delete_where}
use encryption_gateway.Payload.{DecryptedPayload}
use encryption_gateway.Replay.{
  is_off, Times, ReplayProtection, NonceCheck, valid, invalid, check_nonce, parse_timestamp, sweep,
  is_replayed, use_nonce, check_timestamp, check_fresh, assert_fresh,
}

module _ {N : Type 0} (T : Times N) where
  -- A sweep takes only what counts as unused.
  is_replayed-sweep :
      (nonce : Text) (now : ℕ) (s : ReplayProtection)
      → IsDistinct s.seen
      → is_replayed T nonce now (sweep T now s) ≡ is_replayed T nonce now s
  unfolding sweep is_replayed
  is_replayed-sweep nonce now s d =
      ground (arith, get-delete_where (λ expires_at. leb expires_at now) nonce s.seen d)

  -- The verdict from the parts of the request and the nonces in use.
  abbrev pub verdict : NonceCheck → Option N → ℕ → ReplayProtection → Result (Unit {0})
  verdict invalid t now s = err (http 400 "REQUEST_NONCE_INVALID")
  verdict (valid nonce) none now s = err (http 400 "REQUEST_TIMESTAMP_INVALID")
  verdict (valid nonce) (some t) now s =
      if is_off T now t s.max_skew_ms
      then err (http 400 "REQUEST_EXPIRED")
      else if is_replayed T nonce now s
      then err (http 400 "REQUEST_REPLAYED")
      else ok tt

  check_fresh_lem :
      (n : NonceCheck) (t : Option N) (now : ℕ) (s : ReplayProtection)
      → IsDistinct s.seen
      → (check_fresh T n t now s).0 ≡ verdict n t now s
  unfolding check_fresh check_timestamp use_nonce
  check_fresh_lem invalid t now s d = refl
  check_fresh_lem (valid nonce) none now s d = refl
  check_fresh_lem (valid nonce) (some t) now s d = ground (arith, is_replayed-sweep nonce now s d)

  -- A request is accepted where the protection is off. Where it is on, the nonce is checked
  -- first, then the timestamp, then the window, and last whether the nonce is in use at this
  -- time; the first check that fails is the error.
  pub assert_fresh_lem :
      (payload : DecryptedPayload N) (now : ℕ) (s : ReplayProtection)
      → IsDistinct s.seen
      → (assert_fresh T payload now s).0 ≡ (
          if s.is_required
          then verdict (check_nonce payload.nonce) (parse_timestamp T payload.timestamp) now s
          else ok tt)
  unfolding assert_fresh
  assert_fresh_lem payload now s d = ground (
    arith,
    check_fresh_lem (check_nonce payload.nonce) (parse_timestamp T payload.timestamp) now s d,
  )
