-- ===== src/Replay/Window/Settings.antt =====
-- ReplayProtectionService: no request writes the settings.
use encryption_gateway.Prelude.{ℕ, Text, Option, none, some, Bool, ◌≡◌, arith}
use encryption_gateway.Payload.{DecryptedPayload}
use encryption_gateway.Replay.{
  Times, ReplayProtection, NonceCheck, valid, invalid, check_nonce, parse_timestamp, sweep,
  remember, use_nonce, check_timestamp, check_fresh, assert_fresh,
}

module _ {N : Type 0} (T : Times N) where
  -- The settings are never written.
  pub record HasSettings (is_required : Bool) (skew max : ℕ) (s : ReplayProtection) : Type 0 where
    pub required : s.is_required ≡ is_required
    pub skew_is : s.max_skew_ms ≡ skew
    pub max_is : s.max_entries ≡ max

  module _ (is_required : Bool) (skew max : ℕ) where
    pub sweep-HasSettings :
        (now : ℕ) (s : ReplayProtection)
        → HasSettings is_required skew max s
        → HasSettings is_required skew max (sweep T now s)
    unfolding sweep
    sweep-HasSettings now s h = ground arith

    use_nonce-HasSettings :
        (n : Text) (now : ℕ) (s : ReplayProtection)
        → HasSettings is_required skew max s
        → HasSettings is_required skew max (use_nonce T n now s).1
    unfolding use_nonce remember
    use_nonce-HasSettings n now s h = ground (arith, sweep-HasSettings now s h)

    check_fresh-HasSettings :
        (n : NonceCheck) (t : Option N) (now : ℕ) (s : ReplayProtection)
        → HasSettings is_required skew max s
        → HasSettings is_required skew max (check_fresh T n t now s).1
    unfolding check_fresh check_timestamp
    check_fresh-HasSettings invalid t now s h = h
    check_fresh-HasSettings (valid n) none now s h = h
    check_fresh-HasSettings (valid n) (some t) now s h =
        ground (arith, use_nonce-HasSettings n now s h)

    pub assert_fresh-HasSettings :
        (payload : DecryptedPayload N) (now : ℕ) (s : ReplayProtection)
        → HasSettings is_required skew max s
        → HasSettings is_required skew max (assert_fresh T payload now s).1
    unfolding assert_fresh
    assert_fresh-HasSettings payload now s h = ground (
      arith,
      check_fresh-HasSettings (check_nonce payload.nonce) (parse_timestamp T payload.timestamp) now
          s h,
    )
