-- ===== src/Attestation/Concurrent/Alone.antt =====
-- A request of Attestation/Concurrent that runs alone, beside its handler.
use encryption_gateway.Prelude.{ℕ, Text, Option, ◌≡◌, refl, arith}
use encryption_gateway.Runtime.{Bytes, Runtime}
use encryption_gateway.Kv.{KvStore}
use encryption_gateway.Attestation.Crypto.{Crypto}
use encryption_gateway.Attestation.Chain.{AttestationPolicy}
use encryption_gateway.Attestation.Controller.{
  EnrollDevice, VerifyDevice, challenge, enroll, attest, verify_device,
}
use encryption_gateway.Attestation.DeviceGuard.{
  DevicePolicy, DeviceHeaders, check, check_nonce, can_activate,
}
use encryption_gateway.Attestation.Concurrent.{
  Handler, challenging, challenged, enrolling, enrolled, verifying, verified, guarding, guarded,
  resume_enroll, resume_verify, resume_guard, resume,
}

module _ (R : Runtime) (C : Crypto) (kv : KvStore) (lower : Text → Text)
    (P : AttestationPolicy) where
  -- Two runs, one after the other.
  abbrev pub twice :
      ℕ → ℕ → ℕ → Handler R C kv lower P → kv.State → Handler R C kv lower P × kv.State
  twice now1 now2 now3 h s =
      let (waiting, between) = resume R C kv lower P now1 now2 h s in
      resume R C kv lower P now3 now3 waiting between

  pub twice-enroll :
      (now1 now2 now3 : ℕ) (body : EnrollDevice) (s : kv.State)
      → twice now1 now2 now3 (enrolling body) s ≡ (
        enrolled body (enroll R C kv lower P now1 now2 now3 body s).0,
        (enroll R C kv lower P now1 now2 now3 body s).1,
      )
  unfolding resume resume_enroll enroll attest
  twice-enroll now1 now2 now3 body s = ground arith

  pub twice-verify_device :
      (now1 now2 now3 : ℕ) (body : VerifyDevice) (s : kv.State)
      → twice now1 now2 now3 (verifying body) s ≡ (
        verified body (verify_device R C kv lower P now1 now3 body s).0,
        (verify_device R C kv lower P now1 now3 body s).1,
      )
  unfolding resume resume_verify verify_device
  twice-verify_device now1 now2 now3 body s = ground arith

  pub twice-can_activate :
      (now1 now2 now3 : ℕ) (policy : DevicePolicy) (headers : DeviceHeaders) (purpose : Text)
      (s : kv.State)
      → twice now1 now2 now3 (guarding policy headers purpose) s ≡ (
        guarded policy headers (can_activate R C kv lower P now1 now3 policy headers purpose s).0,
        (can_activate R C kv lower P now1 now3 policy headers purpose s).1,
      )
  unfolding resume resume_guard can_activate check check_nonce
  twice-can_activate now1 now2 now3 policy headers purpose s = ground arith

  pub resume-challenge :
      (now now2 : ℕ) (id : Text) (nonce : Bytes) (purpose : Option Text) (s : kv.State)
      → resume R C kv lower P now now2 (challenging id nonce purpose) s ≡ (
        challenged (challenge R C kv lower P now id nonce purpose s).0,
        (challenge R C kv lower P now id nonce purpose s).1,
      )
  unfolding resume
  resume-challenge now now2 id nonce purpose s = refl

  -- A request of an attestation route or of a guarded route that is resumed until it ends, with no
  -- other in between, ends with the result of its handler and leaves the store that the handler
  -- leaves.
  pub alone_lem :
      (now1 now2 now3 : ℕ) (s : kv.State)
      → ((body : EnrollDevice)
          → twice now1 now2 now3 (enrolling body) s ≡ (
            enrolled body (enroll R C kv lower P now1 now2 now3 body s).0,
            (enroll R C kv lower P now1 now2 now3 body s).1,
          ))
        × ((body : VerifyDevice)
            → twice now1 now2 now3 (verifying body) s ≡ (
              verified body (verify_device R C kv lower P now1 now3 body s).0,
              (verify_device R C kv lower P now1 now3 body s).1,
            ))
        × ((policy : DevicePolicy) (headers : DeviceHeaders) (purpose : Text)
            → twice now1 now2 now3 (guarding policy headers purpose) s ≡ (
              guarded policy headers
                  (can_activate R C kv lower P now1 now3 policy headers purpose s).0,
              (can_activate R C kv lower P now1 now3 policy headers purpose s).1,
            ))
        × ((id : Text) (nonce : Bytes) (purpose : Option Text)
            → resume R C kv lower P now1 now2 (challenging id nonce purpose) s ≡ (
              challenged (challenge R C kv lower P now1 id nonce purpose s).0,
              (challenge R C kv lower P now1 id nonce purpose s).1,
            ))
  alone_lem now1 now2 now3 s = (
    λ body. twice-enroll now1 now2 now3 body s,
    λ body. twice-verify_device now1 now2 now3 body s,
    λ policy headers purpose. twice-can_activate now1 now2 now3 policy headers purpose s,
    λ id nonce purpose. resume-challenge now1 now2 id nonce purpose s,
  )
