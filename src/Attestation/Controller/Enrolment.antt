-- ===== src/Attestation/Controller/Enrolment.antt =====
-- AttestationController.enroll: what a success means, and that an enrolment is never replaced.
use encryption_gateway.Prelude.{
  ℕ, Text, codes, Option, none, some, true, Result, ok, err, http, rejected, crash, ◌≡◌, refl,
  arith, map,
}
use encryption_gateway.Exec.{◌>>=◌, >>=-eq-ok}
use encryption_gateway.Runtime.{Bytes, Runtime}
use encryption_gateway.Kv.{KvStore}
use encryption_gateway.Attestation.Crypto.{Crypto}
use encryption_gateway.Attestation.Challenges.{consume}
use encryption_gateway.Attestation.Devices.{enrol}
use encryption_gateway.Attestation.Chain.{AttestationPolicy, Attested, verify}
use encryption_gateway.Attestation.Controller.{
  EnrollDevice, forbidden_of_rejected, assert_configured, device_of, bind_key, attest, enroll,
}

forbidden_of_rejected-eq-ok {ℓ} :
    {A : Type ℓ} (r : Result A) {a : A} → forbidden_of_rejected r ≡ ok a → r ≡ ok a
forbidden_of_rejected-eq-ok (ok b) h = h
forbidden_of_rejected-eq-ok (err (rejected code)) h = cc
forbidden_of_rejected-eq-ok (err (http n m)) h = cc
forbidden_of_rejected-eq-ok (err (crash m)) h = cc

module _ (R : Runtime) (C : Crypto) (kv : KvStore) (lower : Text → Text)
    (P : AttestationPolicy) where
  open R use {from_base64}

  -- What happened where an enrolment succeeded.
  pub record IsEnrolment (now1 now2 now3 : ℕ) (body : EnrollDevice) (s : kv.State)
      (a : Attested lower C P) : Type 0 where
    pub nonce : Bytes
    pub configured : P.configured ≡ true
    pub consumed : (consume R kv now1 body.challenge_id (codes "enroll") s).0 ≡ ok (some nonce)
    pub attested : verify lower C P now2 (map from_base64 body.certificate_chain) nonce ≡ ok a
    pub bound :
        (enrol R C kv now3 body.device_id
          (device_of R C kv lower P now3 a)
          (consume R kv now1 body.challenge_id (codes "enroll") s).1).0
        ≡ ok true

  bind_sound :
      (now : ℕ) (d : Text) (a : Attested lower C P) (s : kv.State) (level : ℕ)
      → (bind_key R C kv lower P now d a s).0 ≡ ok level
      → ((enrol R C kv now d (device_of R C kv lower P now a) s).0 ≡ ok true)
        × (level ≡ a.security_level)
  unfolding bind_key
  bind_sound now d a s level h = ground arith

  attest_sound :
      (now2 now3 : ℕ) (body : EnrollDevice) (nonce : Option Bytes) (s : kv.State) (level : ℕ)
      → (attest R C kv lower P now2 now3 body.device_id body.certificate_chain nonce s).0 ≡ ok level
      → (n : Bytes) × (a : Attested lower C P) × (nonce ≡ some n)
        × (verify lower C P now2 (map from_base64 body.certificate_chain) n ≡ ok a)
        × ((bind_key R C kv lower P now3 body.device_id a s).0 ≡ ok level)
  unfolding attest
  attest_sound now2 now3 body none s level h = ground arith
  attest_sound now2 now3 body (some n) s level h =
      let (a, verified, rest) =
        >>=-eq-ok
          (λ t. (
            forbidden_of_rejected
                (verify lower C P now2 (map from_base64 body.certificate_chain) n),
            t,
          ))
          (bind_key R C kv lower P now3 body.device_id) s h in
      (n, a, refl, forbidden_of_rejected-eq-ok _ verified, rest)

  -- The steps of an enrolment that succeeds at a level: a configured policy, a consume that
  -- returned a nonce, a chain that `verify` accepts for it at that level, and a write that the
  -- registry reports.
  pub enroll-IsEnrolment :
      (now1 now2 now3 : ℕ) (body : EnrollDevice) (s : kv.State) (level : ℕ)
      → (enroll R C kv lower P now1 now2 now3 body s).0 ≡ ok level
      → (a : Attested lower C P) × (level ≡ a.security_level) × IsEnrolment now1 now2 now3 body s a
  unfolding enroll assert_configured
  enroll-IsEnrolment now1 now2 now3 body s level h =
      let (configured, rest) = when_configured h in
      let (nonce, consumed, more) =
        >>=-eq-ok (consume R kv now1 body.challenge_id (codes "enroll"))
          (attest R C kv lower P now2 now3 body.device_id body.certificate_chain) s rest in
      let (n, a, same, attested, binds) = attest_sound now2 now3 body nonce _ level more in
      let (bound, level_is) = bind_sound now3 body.device_id a _ level binds in
      (
        a,
        level_is,
        record {
          nonce = n;
          configured = configured;
          consumed = rw same at consumed;
          attested = attested;
          bound = bound;
        },
      )
    where
      when_configured :
          (enroll R C kv lower P now1 now2 now3 body s).0 ≡ ok level
          → (P.configured ≡ true)
            × (((consume R kv now1 body.challenge_id (codes "enroll")
                    >>= attest R C kv lower P now2 now3 body.device_id body.certificate_chain)
                  s).0
                ≡ ok level)
      when_configured e = ground arith

  -- Where the policy is configured, the challenge is consumed for enrolment, the chain is accepted
  -- for its nonce, and the registry writes the attested key where no value was, the request succeeds
  -- and leaves the store that the registry's write left.
  pub enroll_of_IsEnrolment :
      (now1 now2 now3 : ℕ) (body : EnrollDevice) (s : kv.State) (a : Attested lower C P)
      → IsEnrolment now1 now2 now3 body s a
      → enroll R C kv lower P now1 now2 now3 body s ≡ (
        ok a.security_level,
        (enrol R C kv now3 body.device_id
            (device_of R C kv lower P now3 a)
            (consume R kv now1 body.challenge_id (codes "enroll") s).1).1,
      )
  unfolding enroll assert_configured attest bind_key
  enroll_of_IsEnrolment now1 now2 now3 body s a e =
      ground (arith, e.configured, e.consumed, e.attested, e.bound)
