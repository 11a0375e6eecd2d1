-- ===== src/Replay/Ahead.antt =====
-- ReplayProtectionService: a nonce lives for one window from its acceptance, a timestamp for one
-- window from the client's clock. Where that clock is ahead, the second outlives the first.
use encryption_gateway.Prelude.{ℕ, ◌+◌, ◌≤◌, Text, none, some, true, false, ok, ◌≡◌, arith}
use encryption_gateway.OrderedMap
use encryption_gateway.OrderedMap.{IsDistinct}
use encryption_gateway.Payload.{DecryptedPayload}
use encryption_gateway.Replay.{
  Times, ReplayProtection, valid, check_nonce, parse_timestamp, is_off, is_replayed, assert_fresh,
}
use encryption_gateway.Replay.Fresh.{assert_fresh_lem}
use encryption_gateway.Replay.Window.{accepted-IsHeld}
use encryption_gateway.Replay.Window.Settings.{HasSettings, assert_fresh-HasSettings}
use encryption_gateway.Replay.Window.Held.{IsHeld}

module _ {N : Type 0} (T : Times N) where
  not_replayed_new :
      (nonce : Text) (now : ℕ) (s : ReplayProtection)
      → OrderedMap.get nonce s.seen ≡ none
      → is_replayed T nonce now s ≡ false
  unfolding is_replayed
  not_replayed_new nonce now s h = ground arith

  not_replayed_expired :
      (nonce : Text) (now k : ℕ) (s : ReplayProtection)
      → IsHeld T nonce now k s
      → is_replayed T nonce now s ≡ false
  unfolding is_replayed
  not_replayed_expired nonce now k s h = ground (arith, h.found)

  accepts :
      (nonce : Text) (payload : DecryptedPayload N) (t : N) (now skew max : ℕ)
      (s : ReplayProtection)
      → HasSettings T true skew max s
      → IsDistinct s.seen
      → check_nonce payload.nonce ≡ valid nonce
      → parse_timestamp T payload.timestamp ≡ some t
      → is_off T now t skew ≡ false
      → is_replayed T nonce now s ≡ false
      → (assert_fresh T payload now s).0 ≡ ok tt
  accepts nonce payload t now skew max s c d names at near free =
      ground (arith, assert_fresh_lem T payload now s d, c.required, c.skew_is)

  -- Where the protection is on and has room for an entry, its keys are distinct, and the nonce is
  -- valid and not among them: a request with that nonce whose timestamp is in the window both now
  -- and one window later, as one that is a whole window ahead of the clock is, is accepted twice,
  -- now and again one window later.
  pub accepted_twice :
      (nonce : Text) (payload : DecryptedPayload N) (t : N) (now skew max : ℕ)
      (s : ReplayProtection)
      → HasSettings T true skew max s
      → 1 ≤ max
      → IsDistinct s.seen
      → OrderedMap.get nonce s.seen ≡ none
      → check_nonce payload.nonce ≡ valid nonce
      → parse_timestamp T payload.timestamp ≡ some t
      → is_off T now t skew ≡ false
      → is_off T (now + skew) t skew ≡ false
      → ((assert_fresh T payload now s).0 ≡ ok tt)
        × ((assert_fresh T payload (now + skew) (assert_fresh T payload now s).1).0 ≡ ok tt)
  accepted_twice nonce payload t now skew max s c room d new names at near later =
      let first =
        accepts nonce payload t now skew max s c d names at near
          (not_replayed_new nonce now s new) in
      let held = accepted-IsHeld T nonce payload now skew max s c room d new names first in
      (
        first,
        accepts nonce payload t (now + skew) skew max (assert_fresh T payload now s).1
            (assert_fresh-HasSettings T true skew max payload now s c) held.distinct names at later
            (not_replayed_expired nonce (now + skew) 0 _ held),
      )
