-- ===== src/Replay/Window.antt =====
-- ReplayProtectionService: a nonce that was accepted is not accepted again within the window.
pub mod Settings
pub mod Held
use encryption_gateway.Prelude.{
  ℕ, ◌+◌, ◌≤◌, ◌<◌, Text, List, length, All, Option, none, some, true, leb, ok, ◌≡◌, ◌≢◌, arith,
  refl,
}
use encryption_gateway.OrderedMap
use encryption_gateway.OrderedMap.{OrderedMap, IsDistinct}
use encryption_gateway.OrderedMap.Laws.{delete_where-IsDistinct, get_none-delete_where}
use encryption_gateway.Payload.{DecryptedPayload}
use encryption_gateway.Replay.{
  Times, ReplayProtection, valid, check_nonce, parse_timestamp, sweep, is_replayed, remember,
  use_nonce, check_timestamp, check_fresh, assert_fresh,
}
use encryption_gateway.Replay.Fresh.{assert_fresh_lem, verdict}
use encryption_gateway.Replay.Window.Settings.{
  HasSettings, sweep-HasSettings, assert_fresh-HasSettings,
}
use encryption_gateway.Replay.Window.Held.{
  IsHeld, held-is_replayed, after_all, after_all-IsHeld, remember_new,
}

module _ {N : Type 0} (T : Times N) where
  accepted_state :
      (nonce : Text) (t : Option N) (now : ℕ) (s : ReplayProtection)
      → (check_fresh T (valid nonce) t now s).0 ≡ ok tt
      → (check_fresh T (valid nonce) t now s).1 ≡ remember T nonce now (sweep T now s)
  unfolding check_fresh check_timestamp use_nonce
  accepted_state nonce none now s h = cc
  accepted_state nonce (some t) now s h = ground arith

  get_none-sweep :
      (nonce : Text) (now : ℕ) (s : ReplayProtection)
      → OrderedMap.get nonce s.seen ≡ none
      → OrderedMap.get nonce (sweep T now s).seen ≡ none
  unfolding sweep
  get_none-sweep nonce now s h = ground (arith, get_none-delete_where (λ e. leb e now) nonce s.seen)

  IsDistinct-sweep :
      (now : ℕ) (s : ReplayProtection) → IsDistinct s.seen → IsDistinct (sweep T now s).seen
  unfolding sweep
  IsDistinct-sweep now s d = ground (arith, delete_where-IsDistinct (λ e. leb e now) s.seen d)

  -- With the protection on and a valid nonce, what is left is the check of the timestamp.
  assert_fresh_valid :
      (nonce : Text) (payload : DecryptedPayload N) (now : ℕ) (s : ReplayProtection)
      → s.is_required ≡ true
      → check_nonce payload.nonce ≡ valid nonce
      → assert_fresh T payload now s
        ≡ check_fresh T (valid nonce) (parse_timestamp T payload.timestamp) now s
  unfolding assert_fresh
  assert_fresh_valid nonce payload now s on names = ground arith

  pub accepted-IsHeld :
      (nonce : Text) (payload : DecryptedPayload N) (now skew max : ℕ) (s : ReplayProtection)
      → HasSettings T true skew max s
      → 1 ≤ max
      → IsDistinct s.seen
      → OrderedMap.get nonce s.seen ≡ none
      → check_nonce payload.nonce ≡ valid nonce
      → (assert_fresh T payload now s).0 ≡ ok tt
      → IsHeld T nonce (now + skew) 0 (assert_fresh T payload now s).1
  accepted-IsHeld nonce payload now skew max s c room d new names h =
      let t = parse_timestamp T payload.timestamp in
      let held =
        remember_new T nonce (now + skew) now skew max (sweep T now s) refl
          (sweep-HasSettings T true skew max now s c) room (IsDistinct-sweep now s d)
          (get_none-sweep nonce now s new) in
      let same = assert_fresh_valid nonce payload now s c.required names in
      rw same (rw (accepted_state nonce t now s (rw same at h)) held)

  -- With the protection on, a nonce that was new to the cache and was accepted is refused until
  -- the clock window after that time is over, whatever requests come in between, so long as they
  -- are fewer than the entries that the cache holds.
  pub assert_fresh_once :
      (nonce : Text) (first again : DecryptedPayload N) (now later skew max : ℕ)
      (requests : List (DecryptedPayload N × ℕ)) (s : ReplayProtection)
      → HasSettings T true skew max s
      → IsDistinct s.seen
      → OrderedMap.get nonce s.seen ≡ none
      → check_nonce first.nonce ≡ valid nonce
      → check_nonce again.nonce ≡ valid nonce
      → (assert_fresh T first now s).0 ≡ ok tt
      → All (λ r. r.1 < now + skew) requests
      → length requests < max
      → later < now + skew
      → (assert_fresh T again later
          (after_all T nonce (now + skew) requests (assert_fresh T first now s).1)).0
        ≢ ok tt
  assert_fresh_once nonce first again now later skew max requests s c d new n1 n2 h early room le
        e =
      let s1 = (assert_fresh T first now s).1 in
      let held = accepted-IsHeld nonce first now skew max s c (omega arith) d new n1 h in
      let (last, settings) =
        after_all-IsHeld T nonce (now + skew) skew max 0 requests s1
          (assert_fresh-HasSettings T true skew max first now s c) early (omega arith) held in
      let s2 = after_all T nonce (now + skew) requests s1 in
      refused nonce again later s2 settings.required n2
        (held-is_replayed T nonce (now + skew) later _ s2 le last) last.distinct e
    where
      refused :
          (n : Text) (p : DecryptedPayload N) (t : ℕ) (z : ReplayProtection)
          → z.is_required ≡ true
          → check_nonce p.nonce ≡ valid n
          → is_replayed T n t z ≡ true
          → IsDistinct z.seen
          → (assert_fresh T p t z).0 ≢ ok tt
      refused n p t z on names used dz accepted =
          not_ok (parse_timestamp T p.timestamp) (ground (arith, assert_fresh_lem T p t z dz))
        where
          not_ok : (o : Option N) → verdict T (valid n) o t z ≢ ok tt
          not_ok none q = cc
          not_ok (some x) q = ground (arith, used)
