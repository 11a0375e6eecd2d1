-- ===== src/Replay/Skew.antt =====
-- ReplayProtectionService.assertFresh: the window lies on both sides of the clock.
use encryption_gateway.Prelude.{
  sym, ◌∙◌, ℕ, ◌+◌, ◌-◌, ◌*◌, ◌≤◌, ◌<◌, Text, some, true, err, http, ltb, if◌then◌else◌, ◌≡◌, ◌↔◌,
  ◌⊎◌, inl, inr, arith, Bool-cases, ◌≢◌, refl, ap,
}
use encryption_gateway.Runtime.{num}
use encryption_gateway.Payload.{DecryptedPayload}
use encryption_gateway.Replay.{
  Times, ReplayProtection, valid, check_nonce, milliseconds, parse_timestamp, is_off, is_replayed,
  sweep, use_nonce, check_timestamp, check_fresh, assert_fresh,
}

-- Number.MAX_SAFE_INTEGER
abbrev pub max_safe : ℕ
max_safe = 9007199254740991

-- SECONDS_THRESHOLD
abbrev pub seconds_threshold : ℕ
seconds_threshold = 1000000000000

-- What the language specification says of the numbers that are safe integers, at each operation.
pub record IsMath {N : Type 0} (T : Times N) : Type 1 where
  -- The number is this natural number, and at most MAX_SAFE_INTEGER.
  pub Is : N → ℕ → Type 0
  -- The number is the first less the second, which may be below 0.
  pub IsDifference : N → ℕ → ℕ → Type 0
  pub finite : (n : N) (a : ℕ) → Is n a → T.is_finite n ≡ true
  pub seconds : (n : N) (a : ℕ) → Is n a → T.is_seconds n ≡ ltb a seconds_threshold
  pub times : (n : N) (a : ℕ) → Is n a → a < seconds_threshold → Is (T.times_1000 n) (a * 1000)
  pub minus : (n : N) (a now : ℕ) → now ≤ max_safe → Is n a → IsDifference (T.minus now n) now a
  pub abs : (n : N) (a b : ℕ) → IsDifference n a b → Is (T.abs n) ((a - b) + (b - a))
  pub exceeds : (n : N) (a k : ℕ) → Is n a → T.exceeds n k ≡ ltb k a

-- The milliseconds that a timestamp means.
abbrev pub instant : ℕ → ℕ
instant a = if ltb a seconds_threshold then a * 1000 else a

module _ {N : Type 0} (T : Times N) where
  use_nonce_unexpired :
      (nonce : Text) (now : ℕ) (s : ReplayProtection)
      → (use_nonce T nonce now s).0 ≢ err (http 400 "REQUEST_EXPIRED")
  unfolding use_nonce
  use_nonce_unexpired nonce now s h = elim (Bool-cases (is_replayed T nonce now (sweep T now s))) [
    | inl held ↦ cc (rw held at h)
    | inr free ↦ cc (rw free at h)
  ]

  check_fresh_window :
      (nonce : Text) (t : N) (now : ℕ) (s : ReplayProtection)
      → (check_fresh T (valid nonce) (some t) now s ≡ (err (http 400 "REQUEST_EXPIRED"), s))
        ↔ (is_off T now t s.max_skew_ms ≡ true)
  unfolding check_fresh check_timestamp
  check_fresh_window nonce t now s = elim (Bool-cases (is_off T now t s.max_skew_ms)) [
    | inl off ↦ (λ h. off, λ h. rw off refl)
    | inr near ↦
        (λ h. absurd (use_nonce_unexpired nonce now s (ap (λ r. r.0) (rw near at h))), λ h. cc)
  ]

module _ {N : Type 0} (T : Times N) (math : IsMath T) where
  open math use {Is}

  milliseconds-instant : (n : N) (a : ℕ) → Is n a → Is (milliseconds T n) (instant a)
  milliseconds-instant n a is = elim (Bool-cases (ltb a seconds_threshold)) [
    | inl small ↦ rw (math.seconds n a is, small) (math.times n a is (ground (arith, small)))
    | inr large ↦ rw (math.seconds n a is, large) is
  ]

  is_off-instant :
      (n : N) (a now skew : ℕ)
      → now ≤ max_safe
      → Is n a
      → is_off T now n skew ≡ ltb skew ((now - a) + (a - now))
  is_off-instant n a now skew safe is =
      math.exceeds _ _ skew (math.abs _ now a (math.minus n a now safe is))

  -- Where the protection is on, the nonce is valid, the timestamp is a number of seconds or
  -- milliseconds, and it and the clock are safe integers: the request is refused as expired, and
  -- the nonces stay as they are, exactly when that time is more than the window before the clock
  -- or more than the window after it.
  pub assert_fresh_window :
      (payload : DecryptedPayload N) (nonce : Text) (n : N) (a now : ℕ) (s : ReplayProtection)
      → s.is_required ≡ true
      → check_nonce payload.nonce ≡ valid nonce
      → payload.timestamp ≡ some (num n)
      → Is n a
      → now ≤ max_safe
      → (assert_fresh T payload now s ≡ (err (http 400 "REQUEST_EXPIRED"), s))
        ↔ ((instant a + s.max_skew_ms < now) ⊎ (now + s.max_skew_ms < instant a))
  unfolding assert_fresh parse_timestamp
  assert_fresh_window payload nonce n a now s on names at is safe =
      let off =
        is_off-instant (milliseconds T n) (instant a) now s.max_skew_ms safe
          (milliseconds-instant n a is) in
      let parsed : parse_timestamp T payload.timestamp ≡ some (milliseconds T n) =
        ground (arith, at, math.finite n a is) in
      let (sound, complete) = check_fresh_window T nonce (milliseconds T n) now s in
      let checks : assert_fresh T payload now s
          ≡ check_fresh T (valid nonce) (some (milliseconds T n)) now s =
        ground (arith, on, names, parsed) in
      (
        λ h. ground (arith, sound (sym checks ∙ h), off),
        λ h. checks ∙ complete (ground (arith, h, off)),
      )
