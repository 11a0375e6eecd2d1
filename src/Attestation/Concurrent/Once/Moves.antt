-- ===== src/Attestation/Concurrent/Once/Moves.antt =====
-- What a run of one request does to the nonce of a challenge.
use encryption_gateway.Prelude.{
  one_if, ℕ, ◌≤◌, Text, text_eq, ◌∷◌, Option, none, some, Result, ok, err, ◌≡◌, ◌⊎◌, inl, refl,
  arith, subst, codes,
}
use encryption_gateway.Runtime.{Bytes, Runtime}
use encryption_gateway.Kv.{KvStore, KvLaws}
use encryption_gateway.Attestation.Crypto.{Crypto}
use encryption_gateway.Attestation.Challenges.SingleUse.{
  issuing, getting, enrolling as an_enrol, after,
}
use encryption_gateway.Attestation.Devices
use encryption_gateway.Attestation.Devices.{EnrolledDevice}
use encryption_gateway.Attestation.Chain.{AttestationPolicy, Attested}
use encryption_gateway.Attestation.Controller.{
  EnrollDevice, VerifyDevice, assert_configured, challenge, bind_key, check_signature, device_of,
  purpose_or_enroll,
}
use encryption_gateway.Attestation.DeviceGuard.{
  DevicePolicy, DeviceHeaders, refuse, check_enrolled, admit, device_signature_missing,
}
use encryption_gateway.Attestation.Concurrent.{
  Handler, challenging, challenged, enrolling, binding, enrolled, verifying, finding, verified,
  guarding, looking_up, guarded, after_verify, after_consume, after_nonce, after_find,
  after_guard_nonce, after_lookup, resume_enroll, resume_verify, resume_guard, resume,
}
use encryption_gateway.Attestation.Concurrent.Once.Weights.{names, succeeded, holds, IsQuiet}
use encryption_gateway.Attestation.Concurrent.Once.Calls.{
  IsMove, by_call, by_consume, still, weight,
}

module _ (R : Runtime) (C : Crypto) (kv : KvStore) (lower : Text → Text) (P : AttestationPolicy)
    (id : Text) where
  module _ (laws : KvLaws kv) where
    enroll-IsMove :
        (now now2 : ℕ) (body : EnrollDevice) (r : Result (Unit {0})) (s : kv.State)
        → IsMove R C kv lower P id laws 0 s
            (resume_enroll R C kv lower P now now2 body r s).0
            (resume_enroll R C kv lower P now now2 body r s).1
    unfolding resume_enroll
    enroll-IsMove now now2 body (err e) s =
        still R C kv lower P id laws (enrolled body (err e)) s tt
    enroll-IsMove now now2 body (ok u) s =
        by_consume R C kv lower P id laws now body.challenge_id (codes "enroll") s
          (after_consume R C kv lower P now2 body) quiet (λ e. refl) refl got
      where
        quiet_verify :
            (v : Result (Attested lower C P))
            → IsQuiet R C kv lower P id (after_verify R C kv lower P body v)
        quiet_verify (err e) = tt
        quiet_verify (ok a) = tt

        quiet :
            (n : Result (Option Bytes))
            → IsQuiet R C kv lower P id (after_consume R C kv lower P now2 body n)
        quiet (err e) = tt
        quiet (ok none) = tt
        quiet (ok (some nonce)) = quiet_verify _

        got_verify :
            (v : Result (Attested lower C P))
            → (holds R C kv lower P id (after_verify R C kv lower P body v) ≡ 0)
              ⊎ ((holds R C kv lower P id (after_verify R C kv lower P body v) ≡ 1)
                  × (body.challenge_id ≡ id))
        got_verify (err e) = inl refl
        got_verify (ok a) = weight R C kv lower P id laws body.challenge_id

        got :
            (nonce : Bytes)
            → (holds R C kv lower P id (after_consume R C kv lower P now2 body (ok (some nonce)))
                ≡ 0)
              ⊎ ((holds R C kv lower P id (after_consume R C kv lower P now2 body (ok (some nonce)))
                    ≡ 1)
                  × (body.challenge_id ≡ id))
        got nonce = got_verify _

    verify-IsMove :
        (now : ℕ) (body : VerifyDevice) (r : Result (Unit {0})) (s : kv.State)
        → IsMove R C kv lower P id laws 0 s
            (resume_verify R C kv lower P now body r s).0
            (resume_verify R C kv lower P now body r s).1
    unfolding resume_verify
    verify-IsMove now body (err e) s = still R C kv lower P id laws (verified body (err e)) s tt
    verify-IsMove now body (ok u) s =
        by_consume R C kv lower P id laws now body.challenge_id (codes "verify") s
          (after_nonce R C kv lower P body) quiet (λ e. refl) refl
          (λ nonce. weight R C kv lower P id laws body.challenge_id)
      where
        quiet :
            (n : Result (Option Bytes))
            → IsQuiet R C kv lower P id (after_nonce R C kv lower P body n)
        quiet (err e) = tt
        quiet (ok n) = tt

    by_state :
        (n : ℕ) (s t u : kv.State) (h : Handler R C kv lower P)
        → t ≡ u
        → IsMove R C kv lower P id laws n s h t
        → IsMove R C kv lower P id laws n s h u
    by_state n s t u h e m = subst (IsMove R C kv lower P id laws n s h) e m

    bind_key-after :
        (now : ℕ) (d : Text) (a : Attested lower C P) (s : kv.State)
        → after R C kv (an_enrol now d (device_of R C kv lower P now a)) s
          ≡ (bind_key R C kv lower P now d a s).1
    unfolding bind_key
    bind_key-after now d a s = ground arith

    enrolled_light :
        (body : EnrollDevice) (r : Result ℕ)
        → holds R C kv lower P id (enrolled body r) ≤ one_if (text_eq body.challenge_id id)
    enrolled_light body (ok level) = omega arith
    enrolled_light body (err e) = omega arith

    binding-IsMove :
        (now : ℕ) (body : EnrollDevice) (a : Attested lower C P) (s : kv.State)
        → IsMove R C kv lower P id laws
            (holds R C kv lower P id (binding body a))
            s
            (enrolled body (bind_key R C kv lower P now body.device_id a s).0)
            (bind_key R C kv lower P now body.device_id a s).1
    binding-IsMove now body a s =
        by_state _ s _ _ (enrolled body (bind_key R C kv lower P now body.device_id a s).0)
          (bind_key-after now body.device_id a s)
          (by_call R C kv lower P id laws _ s _
            (an_enrol now body.device_id (device_of R C kv lower P now a)) tt tt
            (enrolled_light body (bind_key R C kv lower P now body.device_id a s).0))

    found_light :
        (body : VerifyDevice) (nonce : Option Bytes) (r : Result (Option (EnrolledDevice R C)))
        → IsQuiet R C kv lower P id (after_find R C kv lower P body nonce r)
          × (holds R C kv lower P id (after_find R C kv lower P body nonce r)
              ≤ holds R C kv lower P id (finding body nonce))
    unfolding check_signature
    found_light body _ (err e) = (tt, omega arith)
    found_light body none (ok device) = (tt, omega arith)
    found_light body (some nonce) (ok none) = (tt, omega arith)
    found_light body (some nonce) (ok (some device)) = (tt, ground arith)

    looked_light :
        (policy : DevicePolicy) (headers : DeviceHeaders) (d g : Text) (nonce : Bytes)
        (r : Result (Option (EnrolledDevice R C)))
        → IsQuiet R C kv lower P id (after_lookup R C kv lower P policy headers d g nonce r)
          × (holds R C kv lower P id (after_lookup R C kv lower P policy headers d g nonce r)
              ≤ holds R C kv lower P id (looking_up policy headers d g nonce))
    unfolding check_enrolled admit
    looked_light policy headers d g nonce (err e) = (tt, omega arith)
    looked_light policy headers d g nonce (ok device) = (tt, ground arith)

    get-after :
        (now : ℕ) (d : Text) (s : kv.State)
        → after R C kv (getting now d) s ≡ (Devices.get R C kv now d s).1
    get-after now d s = refl

    guard-IsMove :
        (now : ℕ) (policy : DevicePolicy) (headers : DeviceHeaders) (purpose : Text)
        (d c g : Option Text) (s : kv.State)
        → headers.x_device_challenge_id ≡ c
        → IsMove R C kv lower P id laws 0 s
            (resume_guard R C kv lower P now policy headers purpose d c g s).0
            (resume_guard R C kv lower P now policy headers purpose d c g s).1
    unfolding resume_guard
    guard-IsMove now policy headers purpose (some (d ∷ ds)) (some (c ∷ cs)) (some (g ∷ gs)) s e =
        by_consume R C kv lower P id laws now (c ∷ cs) purpose s
          (after_guard_nonce R C kv lower P policy headers (d ∷ ds) (g ∷ gs)) quiet (λ f. refl)
          not_verified got
      where
        quiet :
            (n : Result (Option Bytes))
            → IsQuiet R C kv lower P id
                (after_guard_nonce R C kv lower P policy headers (d ∷ ds) (g ∷ gs) n)
        quiet (err f) = tt
        quiet (ok none) = tt
        quiet (ok (some nonce)) = tt

        not_verified :
            holds R C kv lower P id
              (after_guard_nonce R C kv lower P policy headers (d ∷ ds) (g ∷ gs) (ok none))
            ≡ 0
        not_verified = unfold admit in ground arith

        got :
            (nonce : Bytes)
            → (one_if (names headers.x_device_challenge_id id) ≡ 0)
              ⊎ ((one_if (names headers.x_device_challenge_id id) ≡ 1) × ((c ∷ cs) ≡ id))
        got nonce = rw e (weight R C kv lower P id laws (c ∷ cs))
    guard-IsMove now policy headers purpose d c g s e = record {
      quiet = tt;
      stays = λ gone. gone;
      gains = inl none_verified;
    }
      where
        none_verified :
            succeeded R C kv lower P id (
              guarded policy headers
                (admit R C kv lower P policy (refuse none device_signature_missing)))
            ≤ 0
        none_verified = unfold admit in ground arith

    pub resume-IsMove :
        (now now2 : ℕ) (h : Handler R C kv lower P) (s : kv.State)
        → IsQuiet R C kv lower P id h
        → IsMove R C kv lower P id laws
            (holds R C kv lower P id h)
            s
            (resume R C kv lower P now now2 h s).0
            (resume R C kv lower P now now2 h s).1
    unfolding resume challenge
    resume-IsMove now now2 (challenging other nonce purpose) s quiet =
        by_call R C kv lower P id laws 0 s (challenged _)
          (issuing now other nonce (purpose_or_enroll purpose)) quiet tt (omega arith)
    resume-IsMove now now2 (enrolling body) s quiet =
        enroll-IsMove now now2 body (assert_configured R C kv lower P) s
    resume-IsMove now now2 (binding body a) s quiet = binding-IsMove now body a s
    resume-IsMove now now2 (verifying body) s quiet =
        verify-IsMove now body (assert_configured R C kv lower P) s
    resume-IsMove now now2 (finding body nonce) s quiet =
        let (calm, light) = found_light body nonce (Devices.get R C kv now body.device_id s).0 in
        by_call R C kv lower P id laws _ s _ (getting now body.device_id) tt calm light
    resume-IsMove now now2 (guarding policy headers purpose) s quiet =
        guard-IsMove now policy headers purpose headers.x_device_id headers.x_device_challenge_id
          headers.x_device_signature s refl
    resume-IsMove now now2 (looking_up policy headers d g nonce) s quiet =
        let (calm, light) = looked_light policy headers d g nonce (Devices.get R C kv now d s).0 in
        by_call R C kv lower P id laws _ s _ (getting now d) tt calm light
    resume-IsMove now now2 h s quiet = still R C kv lower P id laws h s quiet
