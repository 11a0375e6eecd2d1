-- ===== src/Attestation/Concurrent/Bound/Moves.antt =====
-- What a run of one request does to the key of a device.
use encryption_gateway.Prelude.{
  ℕ, http, Text, codes, text_eq, text_eq_iff, ◌∷◌, Option, none, some, Bool, true, false,
  if◌then◌else◌, Result, ok, err, ◌≡◌, inl, inr, refl, arith, ap, subst, sym, Bool-cases,
}
use encryption_gateway.Exec.{state-continue, continue, pure, raise}
use encryption_gateway.Runtime.{Bytes, Runtime}
use encryption_gateway.Kv.{KvStore, KvKeeps}
use encryption_gateway.Attestation.Crypto.{Crypto}
use encryption_gateway.Attestation.Challenges
use encryption_gateway.Attestation.Challenges.{issue, consume, read_challenge}
use encryption_gateway.Attestation.Challenges.SingleUse.{keys_apart}
use encryption_gateway.Attestation.Devices
use encryption_gateway.Attestation.Devices.{EnrolledDevice, enrol, read_device}
use encryption_gateway.Attestation.Chain.{AttestationPolicy, Attested}
use encryption_gateway.Attestation.Controller.{
  EnrollDevice, VerifyDevice, assert_configured, challenge, bind_key, device_of, purpose_or_enroll,
}
use encryption_gateway.Attestation.DeviceGuard.{DevicePolicy, DeviceHeaders}
use encryption_gateway.Attestation.Concurrent.{
  Handler, challenging, enrolling, binding, enrolled, verifying, finding, guarding, looking_up,
  after_verify, after_consume, after_nonce, after_find, after_guard_nonce, after_lookup,
  resume_enroll, resume_verify, resume_guard, resume,
}
use encryption_gateway.Attestation.Concurrent.AtMostOne
use encryption_gateway.Attestation.Concurrent.Bound.Weights.{bound}

module _ (R : Runtime) (C : Crypto) (kv : KvStore) (lower : Text → Text) (P : AttestationPolicy)
    (device_id : Text) where
  module _ (keeps : KvKeeps kv) where
    abbrev pub IsTaken : kv.State → Type 0
    IsTaken s = keeps.Taken (Devices.key device_id) s

    abbrev IsMove : ℕ → kv.State → Handler R C kv lower P → kv.State → Type 0
    IsMove = AtMostOne.IsMove R C kv lower P (bound R C kv lower P device_id) (λ h. Unit) IsTaken

    consume-IsTaken :
        (now : ℕ) (id expected : Text) (s : kv.State)
        → IsTaken s
        → IsTaken (consume R kv now id expected s).1
    unfolding consume
    consume-IsTaken now id expected s taken =
        rw (state-continue _ (λ raw. read_challenge R raw expected) _) (
          keeps.get_delete-taken now (Challenges.key id) (Devices.key device_id) s
            (λ e. keys_apart id device_id (sym e)) taken)

    get-IsTaken :
        (now : ℕ) (d : Text) (s : kv.State) → IsTaken s → IsTaken (Devices.get R C kv now d s).1
    unfolding Devices.get
    get-IsTaken now d s taken =
        rw (state-continue {B = Option (EnrolledDevice R C)} _ (λ raw. ok (read_device R C raw)) _)
          (keeps.get-taken now (Devices.key d) (Devices.key device_id) s taken)

    issue-IsTaken :
        (now : ℕ) (id : Text) (nonce : Bytes) (purpose : Text) (s : kv.State)
        → IsTaken s
        → IsTaken (issue R kv now id nonce purpose s).1
    unfolding issue
    issue-IsTaken now id nonce purpose s taken =
        rw (state-continue {B = Text × Bytes} _ (λ _. ok (id, nonce)) _) (
          keeps.set-taken now (Challenges.key id) (Devices.key device_id) _ _ s
            (λ e. keys_apart id device_id (sym e)) taken)

    module _ (now : ℕ) (body : EnrollDevice) (a : Attested lower C P) (s : kv.State) where
      abbrev wrote : Result Bool × kv.State
      wrote = enrol R C kv now body.device_id (device_of R C kv lower P now a) s

      abbrev replied : Result Bool → Result ℕ × kv.State
      replied r =
          continue r
            (λ enrolled_now.
              if enrolled_now
              then pure a.security_level
              else raise (http 409 "DEVICE_ALREADY_ENROLLED"))
            wrote.1

      wrote-IsTaken : IsTaken s → IsTaken wrote.1
      wrote-IsTaken = unfold enrol in λ taken. keeps.set_if_absent_keeps now _ _ _ none s taken

      at_same :
          text_eq body.device_id device_id ≡ true
          → wrote.0 ≡ ok true
          → (IsTaken s → ⊥) × IsTaken wrote.1
      at_same =
          unfold enrol in
          λ same h.
            let at_id : Devices.key body.device_id ≡ Devices.key device_id =
              ap Devices.key ((text_eq_iff body.device_id device_id).0 same) in
            (
              λ taken.
                  keeps.taken-set_if_absent now (Devices.key body.device_id) _ none s
                    (subst (λ k. keeps.Taken k s) (sym at_id) taken) h,
              subst (λ k. keeps.Taken k wrote.1) at_id
                  (keeps.set_if_absent-taken now (Devices.key body.device_id) _ s h),
            )

      bind-IsMove :
          (r : Result Bool) → wrote.0 ≡ r → IsMove 0 s (enrolled body (replied r).0) (replied r).1
      bind-IsMove (err e) h = record {
        quiet = tt;
        stays = wrote-IsTaken;
        gains = inl (omega arith);
      }
      bind-IsMove (ok false) h = record {
        quiet = tt;
        stays = wrote-IsTaken;
        gains = inl (omega arith);
      }
      bind-IsMove (ok true) h = elim (Bool-cases (text_eq body.device_id device_id)) [
        | inl same ↦ record {
          quiet = tt;
          stays = wrote-IsTaken;
          gains = let (free, taken) = at_same same h in inr (rw same refl, free, taken);
        }
        | inr other ↦ record {
          quiet = tt;
          stays = wrote-IsTaken;
          gains = inl (ground (arith, other));
        }
      ]

    binding-IsMove :
        (now : ℕ) (body : EnrollDevice) (a : Attested lower C P) (s : kv.State)
        → IsMove 0 s
            (enrolled body (bind_key R C kv lower P now body.device_id a s).0)
            (bind_key R C kv lower P now body.device_id a s).1
    unfolding bind_key
    binding-IsMove now body a s = bind-IsMove now body a s (wrote now body a s).0 refl

    -- A run that enrols nothing.
    quietly :
        (n : ℕ) (s t : kv.State) (h : Handler R C kv lower P)
        → (IsTaken s → IsTaken t)
        → bound R C kv lower P device_id h ≡ 0
        → IsMove n s h t
    quietly n s t h stays nothing = record {
      quiet = tt;
      stays = stays;
      gains = inl (omega (arith, nothing));
    }

    still :
        (s : kv.State) (h : Handler R C kv lower P)
        → IsMove (bound R C kv lower P device_id h) s h s
    still s h = record { quiet = tt; stays = λ taken. taken; gains = inl (omega arith) }

    after_consume_free :
        (now2 : ℕ) (body : EnrollDevice) (r : Result (Option Bytes))
        → bound R C kv lower P device_id (after_consume R C kv lower P now2 body r) ≡ 0
    after_consume_free now2 body (err e) = refl
    after_consume_free now2 body (ok none) = refl
    after_consume_free now2 body (ok (some nonce)) = verify_free _
      where
        verify_free :
            (v : Result (Attested lower C P))
            → bound R C kv lower P device_id (after_verify R C kv lower P body v) ≡ 0
        verify_free (err e) = refl
        verify_free (ok a) = refl

    enroll-IsMove :
        (now now2 : ℕ) (body : EnrollDevice) (r : Result (Unit {0})) (s : kv.State)
        → IsMove 0 s
            (resume_enroll R C kv lower P now now2 body r s).0
            (resume_enroll R C kv lower P now now2 body r s).1
    unfolding resume_enroll
    enroll-IsMove now now2 body (err e) s = quietly 0 s s _ (λ taken. taken) refl
    enroll-IsMove now now2 body (ok u) s =
        quietly 0 s _ _ (consume-IsTaken now body.challenge_id (codes "enroll") s)
          (after_consume_free now2 body _)

    verify-IsMove :
        (now : ℕ) (body : VerifyDevice) (r : Result (Unit {0})) (s : kv.State)
        → IsMove 0 s
            (resume_verify R C kv lower P now body r s).0
            (resume_verify R C kv lower P now body r s).1
    unfolding resume_verify
    verify-IsMove now body (err e) s = quietly 0 s s _ (λ taken. taken) refl
    verify-IsMove now body (ok u) s =
        quietly 0 s _ _ (consume-IsTaken now body.challenge_id (codes "verify") s)
          (nonce_free (consume R kv now body.challenge_id (codes "verify") s).0)
      where
        nonce_free :
            (r : Result (Option Bytes))
            → bound R C kv lower P device_id (after_nonce R C kv lower P body r) ≡ 0
        nonce_free (err e) = refl
        nonce_free (ok _) = refl

    guard-IsMove :
        (now : ℕ) (policy : DevicePolicy) (headers : DeviceHeaders) (purpose : Text)
        (d c g : Option Text) (s : kv.State)
        → IsMove 0 s
            (resume_guard R C kv lower P now policy headers purpose d c g s).0
            (resume_guard R C kv lower P now policy headers purpose d c g s).1
    unfolding resume_guard
    guard-IsMove now policy headers purpose (some (d ∷ ds)) (some (c ∷ cs)) (some (g ∷ gs)) s =
        quietly 0 s _ _ (consume-IsTaken now (c ∷ cs) purpose s)
          (guard_free (consume R kv now (c ∷ cs) purpose s).0)
      where
        guard_free :
            (r : Result (Option Bytes))
            → bound R C kv lower P device_id
                (after_guard_nonce R C kv lower P policy headers (d ∷ ds) (g ∷ gs) r)
              ≡ 0
        guard_free (err e) = refl
        guard_free (ok none) = refl
        guard_free (ok (some nonce)) = refl
    guard-IsMove now policy headers purpose d c g s = quietly 0 s s _ (λ taken. taken) refl

    found_free :
        (body : VerifyDevice) (held : Option Bytes) (r : Result (Option (EnrolledDevice R C)))
        → bound R C kv lower P device_id (after_find R C kv lower P body held r) ≡ 0
    found_free body held (err e) = refl
    found_free body held (ok device) = refl

    looked_free :
        (policy : DevicePolicy) (headers : DeviceHeaders) (d g : Text) (nonce : Bytes)
        (r : Result (Option (EnrolledDevice R C)))
        → bound R C kv lower P device_id (after_lookup R C kv lower P policy headers d g nonce r)
          ≡ 0
    looked_free policy headers d g nonce (err e) = refl
    looked_free policy headers d g nonce (ok device) = refl

    pub resume-IsMove :
        (now now2 : ℕ) (h : Handler R C kv lower P) (s : kv.State)
        → Unit {0}
        → IsMove
            (bound R C kv lower P device_id h)
            s
            (resume R C kv lower P now now2 h s).0
            (resume R C kv lower P now now2 h s).1
    unfolding resume challenge
    resume-IsMove now now2 (challenging other nonce purpose) s u =
        quietly 0 s _ _ (issue-IsTaken now other nonce (purpose_or_enroll purpose) s) refl
    resume-IsMove now now2 (enrolling body) s u =
        enroll-IsMove now now2 body (assert_configured R C kv lower P) s
    resume-IsMove now now2 (binding body a) s u = binding-IsMove now body a s
    resume-IsMove now now2 (verifying body) s u =
        verify-IsMove now body (assert_configured R C kv lower P) s
    resume-IsMove now now2 (finding body nonce) s u =
        quietly 0 s _ _ (get-IsTaken now body.device_id s) (found_free body nonce _)
    resume-IsMove now now2 (guarding policy headers purpose) s u =
        guard-IsMove now policy headers purpose headers.x_device_id headers.x_device_challenge_id
          headers.x_device_signature s
    resume-IsMove now now2 (looking_up policy headers d g nonce) s u =
        quietly 0 s _ _ (get-IsTaken now d s) (looked_free policy headers d g nonce _)
    resume-IsMove now now2 h s u = still s h
