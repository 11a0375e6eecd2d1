-- ===== src/Replay/Window/Held.antt =====
-- ReplayProtectionService: a nonce stays in the cache until it expires, while fewer than the cap come
-- in behind it.
use encryption_gateway.Prelude.{
  ℕ, suc, ◌+◌, ◌≤◌, ◌<◌, Text, List, [], ◌∷◌, length, All, Option, none, some, true, false, leb,
  ◌≡◌, ◌≢◌, arith, text_eq_refl, text_eq_iff, Bool-cases, inl, inr, subst,
}
use encryption_gateway.OrderedMap
use encryption_gateway.OrderedMap.{OrderedMap, IsDistinct}
use encryption_gateway.OrderedMap.Laws.{
  get-delete_where, get-set, set-IsDistinct, delete_where-IsDistinct,
}
use encryption_gateway.OrderedMap.Order.{behind, behind-set, behind-set_new, behind-delete_where}
use encryption_gateway.Payload.{DecryptedPayload}
use encryption_gateway.Replay.{
  Times, ReplayProtection, NonceCheck, valid, invalid, check_nonce, parse_timestamp, sweep,
  is_replayed, drop_first, remember, use_nonce, check_timestamp, check_fresh, assert_fresh,
}
use encryption_gateway.Replay.Window.Settings.{HasSettings, assert_fresh-HasSettings}

module _ {N : Type 0} (T : Times N) (nonce : Text) (expires_at : ℕ) where
  -- The nonce is in the cache, with at most `k` others behind it.
  pub record IsHeld (k : ℕ) (s : ReplayProtection) : Type 0 where
    pub distinct : IsDistinct s.seen
    pub found : OrderedMap.get nonce s.seen ≡ some expires_at
    pub near : behind nonce s.seen ≤ k

  get-drop_first :
      (m : OrderedMap ℕ)
      → IsDistinct m
      → OrderedMap.get nonce m ≡ some expires_at
      → behind nonce m + 1 < length m
      → (OrderedMap.get nonce (drop_first m) ≡ some expires_at)
        × (behind nonce (drop_first m) ≡ behind nonce m)
        × IsDistinct (drop_first m)
  unfolding OrderedMap.get behind
  get-drop_first [] d h b = ground arith
  get-drop_first ((i, w) ∷ m) d h b = ground arith

  sweep-IsHeld :
      (now k : ℕ) (s : ReplayProtection) → now < expires_at → IsHeld k s → IsHeld k (sweep T now s)
  unfolding sweep
  sweep-IsHeld now k s early h =
      let old = λ (e : ℕ). leb e now in
      ground (
        arith,
        get-delete_where old nonce s.seen h.distinct,
        behind-delete_where old nonce expires_at s.seen h.found,
        delete_where-IsDistinct old s.seen h.distinct,
      )

  remember-IsHeld :
      (other : Text) (now k : ℕ) (s : ReplayProtection)
      → other ≢ nonce
      → k + 1 < s.max_entries
      → IsHeld k s
      → IsHeld (suc k) (remember T other now s)
  unfolding remember
  remember-IsHeld other now k s ne room h =
      let seen = OrderedMap.set other (now + s.max_skew_ms) s.seen in
      ground (
        arith,
        get-set other nonce (now + s.max_skew_ms) s.seen,
        text_eq_iff other nonce,
        behind-set other nonce (now + s.max_skew_ms) s.seen ne,
        set-IsDistinct other (now + s.max_skew_ms) s.seen h.distinct,
        get-drop_first seen,
      )

  -- While it is held, the nonce counts as used.
  pub held-is_replayed :
      (now k : ℕ) (s : ReplayProtection)
      → now < expires_at
      → IsHeld k s
      → is_replayed T nonce now s ≡ true
  unfolding is_replayed
  held-is_replayed now k s early h = ground (arith, h.found)

  other_nonce :
      (other : Text) (now k : ℕ) (s : ReplayProtection)
      → now < expires_at
      → IsHeld k s
      → is_replayed T other now s ≡ false
      → other ≢ nonce
  other_nonce other now k s early h free same = ground (
    arith,
    held-is_replayed now k s early h,
    subst (λ n. is_replayed T n now s ≡ false) same free,
  )

  max_entries-sweep : (now : ℕ) (s : ReplayProtection) → (sweep T now s).max_entries ≡ s.max_entries
  unfolding sweep
  max_entries-sweep now s = ground arith

  wider : (k : ℕ) (s : ReplayProtection) → IsHeld k s → IsHeld (suc k) s
  wider k s h = record { distinct = h.distinct; found = h.found; near = omega (arith, h.near) }

  use_nonce-IsHeld :
      (other : Text) (now k : ℕ) (s : ReplayProtection)
      → now < expires_at
      → k + 1 < s.max_entries
      → IsHeld k s
      → IsHeld (suc k) (use_nonce T other now s).1
  unfolding use_nonce
  use_nonce-IsHeld other now k s early room h =
      let swept = sweep-IsHeld now k s early h in
      let room_left : k + 1 < (sweep T now s).max_entries =
        omega (arith, max_entries-sweep now s) in
      elim (Bool-cases (is_replayed T other now (sweep T now s))) [
        | inl used ↦ rw used (wider k (sweep T now s) swept)
        | inr free ↦ rw free (
            remember-IsHeld other now k (sweep T now s)
              (other_nonce other now k (sweep T now s) early swept free) room_left swept)
      ]

  -- A request for any nonce leaves the held one in the cache.
  assert_fresh-IsHeld :
      (payload : DecryptedPayload N) (now k : ℕ) (s : ReplayProtection)
      → now < expires_at
      → k + 1 < s.max_entries
      → IsHeld k s
      → IsHeld (suc k) (assert_fresh T payload now s).1
  unfolding assert_fresh
  assert_fresh-IsHeld payload now k s early room h = ground (
    arith,
    wider k s h,
    check_fresh-IsHeld (check_nonce payload.nonce) (parse_timestamp T payload.timestamp),
  )
    where
      check_fresh-IsHeld :
          (n : NonceCheck) (t : Option N) → IsHeld (suc k) (check_fresh T n t now s).1
      check_fresh-IsHeld invalid t = unfold check_fresh in wider k s h
      check_fresh-IsHeld (valid other) none = unfold check_fresh check_timestamp in wider k s h
      check_fresh-IsHeld (valid other) (some t) =
          unfold check_fresh check_timestamp in
          ground (arith, wider k s h, use_nonce-IsHeld other now k s early room h)

  -- Requests, each with its time, one after the other.
  abbrev pub after_all : List (DecryptedPayload N × ℕ) → ReplayProtection → ReplayProtection
  after_all [] s = s
  after_all ((payload, now) ∷ rest) s = after_all rest (assert_fresh T payload now s).1

  pub after_all-IsHeld :
      (skew max k : ℕ) (requests : List (DecryptedPayload N × ℕ)) (s : ReplayProtection)
      → HasSettings T true skew max s
      → All (λ r. r.1 < expires_at) requests
      → k + length requests < max
      → IsHeld k s
      → IsHeld (k + length requests) (after_all requests s)
        × HasSettings T true skew max (after_all requests s)
  after_all-IsHeld skew max k [] s c early room h =
      (record { distinct = h.distinct; found = h.found; near = omega (arith, h.near) }, c)
  after_all-IsHeld skew max k ((payload, now) ∷ rest) s c (early, later) room h =
      let held = assert_fresh-IsHeld payload now k s early (omega (arith, c.max_is)) h in
      let kept = assert_fresh-HasSettings T true skew max payload now s c in
      let (last, same) =
        after_all-IsHeld skew max (suc k) rest (assert_fresh T payload now s).1 kept later
          (omega arith) held in
      (
        record { distinct = last.distinct; found = last.found; near = omega (arith, last.near) },
        same,
      )

  -- The first acceptance stores the nonce last.
  pub remember_new :
      (now skew max : ℕ) (s : ReplayProtection)
      → expires_at ≡ now + skew
      → HasSettings T true skew max s
      → 1 ≤ max
      → IsDistinct s.seen
      → OrderedMap.get nonce s.seen ≡ none
      → IsHeld 0 (remember T nonce now s)
  unfolding remember
  remember_new now skew max s e c room d new =
      let seen = OrderedMap.set nonce (now + s.max_skew_ms) s.seen in
      ground (
        arith,
        get-set nonce nonce (now + s.max_skew_ms) s.seen,
        text_eq_refl nonce,
        behind-set_new nonce (now + s.max_skew_ms) s.seen new,
        set-IsDistinct nonce (now + s.max_skew_ms) s.seen d,
        get-drop_first seen,
        c.skew_is,
        c.max_is,
      )
