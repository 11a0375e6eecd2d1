-- ===== src/Attestation/Concurrent/Once/Calls.antt =====
-- What one call of the store does to the nonce of a challenge.
use encryption_gateway.Prelude.{
  one_if, ℕ, ◌≤◌, Text, text_eq, text_eq_iff, Option, none, some, Result, ok, err, ◌≡◌, ◌⊎◌, inl,
  inr, refl, arith, subst, sym, Bool-cases,
}
use encryption_gateway.Runtime.{Bytes, Runtime}
use encryption_gateway.Kv.{KvStore, KvLaws}
use encryption_gateway.Attestation.Crypto.{Crypto}
use encryption_gateway.Attestation.Challenges
use encryption_gateway.Attestation.Challenges.{consume}
use encryption_gateway.Attestation.Challenges.SingleUse.{
  Call, consuming, after, IsNoIssue, after-Absent, consume-Absent, absent-consume,
}
use encryption_gateway.Attestation.Chain.{AttestationPolicy}
use encryption_gateway.Attestation.Concurrent.{Handler}
use encryption_gateway.Attestation.Concurrent.AtMostOne
use encryption_gateway.Attestation.Concurrent.Once.Weights.{holds, IsQuiet}

module _ (R : Runtime) (C : Crypto) (kv : KvStore) (lower : Text → Text) (P : AttestationPolicy)
    (id : Text) where
  module _ (laws : KvLaws kv) where
    abbrev pub IsGone : kv.State → Type 0
    IsGone s = laws.Absent (Challenges.key id) s

    abbrev pub IsMove : ℕ → kv.State → Handler R C kv lower P → kv.State → Type 0
    IsMove =
        AtMostOne.IsMove R C kv lower P (holds R C kv lower P id) (IsQuiet R C kv lower P id) IsGone

    -- A run that does not consume the challenge.
    pub by_call :
        (n : ℕ) (s : kv.State) (h : Handler R C kv lower P) (call : Call R C kv)
        → IsNoIssue R C kv id call
        → IsQuiet R C kv lower P id h
        → holds R C kv lower P id h ≤ n
        → IsMove n s h (after R C kv call s)
    by_call n s h call other quiet less = record {
      quiet = quiet;
      stays = after-Absent R C kv laws id call s other;
      gains = inl less;
    }

    -- A consume of a challenge, after which the request holds a nonce or does not.
    pub by_consume :
        (now : ℕ) (other expected : Text) (s : kv.State)
        (next : Result (Option Bytes) → Handler R C kv lower P)
        → ((r : Result (Option Bytes)) → IsQuiet R C kv lower P id (next r))
        → ((e : _) → holds R C kv lower P id (next (err e)) ≡ 0)
        → (holds R C kv lower P id (next (ok none)) ≡ 0)
        → ((nonce : Bytes)
            → (holds R C kv lower P id (next (ok (some nonce))) ≡ 0)
              ⊎ ((holds R C kv lower P id (next (ok (some nonce))) ≡ 1) × (other ≡ id)))
        → IsMove 0 s
            (next (consume R kv now other expected s).0)
            (consume R kv now other expected s).1
    by_consume now other expected s next quiet failed no_nonce got = record {
      quiet = quiet (consume R kv now other expected s).0;
      stays = after-Absent R C kv laws id (consuming now other expected) s tt;
      gains = by_result (consume R kv now other expected s).0 refl;
    }
      where
        by_result :
            (r : Result (Option Bytes))
            → (consume R kv now other expected s).0 ≡ r
            → (holds R C kv lower P id (next r) ≤ 0)
              ⊎ ((holds R C kv lower P id (next r) ≡ 1)
                  × (IsGone s → ⊥)
                  × IsGone (consume R kv now other expected s).1)
        by_result (err e) h = inl (omega (arith, failed e))
        by_result (ok none) h = inl (omega (arith, no_nonce))
        by_result (ok (some nonce)) h = elim (got nonce) [
          | inl nothing ↦ inl (omega (arith, nothing))
          | inr (one, same) ↦ inr (
            one,
            λ gone.
                absent-consume R C kv laws now other expected s nonce
                  (subst (λ i. laws.Absent (Challenges.key i) s) (sym same) gone) h,
            subst (λ i. laws.Absent (Challenges.key i) (consume R kv now other expected s).1) same
                (consume-Absent R C kv laws now other expected s (some nonce) h),
          )
        ]

    pub still :
        (h : Handler R C kv lower P) (s : kv.State)
        → IsQuiet R C kv lower P id h
        → IsMove (holds R C kv lower P id h) s h s
    still h s quiet = record { quiet = quiet; stays = λ gone. gone; gains = inl (omega arith) }

    pub weight : (c : Text) → (one_if (text_eq c id) ≡ 0) ⊎ ((one_if (text_eq c id) ≡ 1) × (c ≡ id))
    weight c = elim (Bool-cases (text_eq c id)) [
      | inl same ↦ inr (rw same refl, (text_eq_iff c id).0 same)
      | inr other ↦ inl (rw other refl)
    ]
