-- ===== src/Attestation/Concurrent.antt =====
-- The handlers of attestation/attestation.controller.ts and the guard of
-- attestation/device-signature.guard.ts as requests that run side by side over one store. A handler
-- runs from one `await` of the store to the next without a pause: `Handler` says where a request
-- stands, with what its code holds there, and `resume` runs it to the next such place. Its first time
-- is that of the call of the store, its second that of the check of a chain.
pub mod Alone
pub mod AtMostOne
pub mod Once
pub mod Bound
use encryption_gateway.Prelude.{
  ℕ, Text, codes, List, ◌∷◌, ◌++◌, map, Option, none, some, Result, ok, err, http, ◌≡◌,
}
use encryption_gateway.Runtime.{Bytes, Runtime}
use encryption_gateway.Kv.{KvStore}
use encryption_gateway.Attestation.Crypto.{Crypto}
use encryption_gateway.Attestation.Challenges.{consume}
use encryption_gateway.Attestation.Devices
use encryption_gateway.Attestation.Devices.{EnrolledDevice}
use encryption_gateway.Attestation.Chain.{AttestationPolicy, Attested, verify}
use encryption_gateway.Attestation.Controller.{
  EnrollDevice, VerifyDevice, forbidden_of_rejected, assert_configured, challenge, bind_key,
  check_signature,
}
use encryption_gateway.Attestation.DeviceGuard.{
  DevicePolicy, device_signature_missing, device_challenge_invalid, DeviceContext, DeviceHeaders,
  refuse, check_enrolled, admit,
}

module _ (R : Runtime) (C : Crypto) (kv : KvStore) (lower : Text → Text)
    (P : AttestationPolicy) where
  open R use {from_base64}

  pub data Handler : Type 0 where
    challenging : (challenge_id : Text) (nonce : Bytes) (purpose : Option Text) → Handler
    challenged : Result (Text × Bytes) → Handler
    enrolling : EnrollDevice → Handler
    binding : EnrollDevice → Attested lower C P → Handler
    enrolled : EnrollDevice → Result ℕ → Handler
    verifying : VerifyDevice → Handler
    finding : VerifyDevice → Option Bytes → Handler
    verified : VerifyDevice → Result (Unit {0}) → Handler
    guarding : DevicePolicy → DeviceHeaders → (purpose : Text) → Handler
    looking_up :
        DevicePolicy → DeviceHeaders → (device_id signature : Text) → (nonce : Bytes) → Handler
    guarded : DevicePolicy → DeviceHeaders → Result DeviceContext → Handler

  -- `enroll` after the check of the chain.
  abbrev pub after_verify : EnrollDevice → Result (Attested lower C P) → Handler
  after_verify body (err e) = enrolled body (err e)
  after_verify body (ok a) = binding body a

  -- `enroll` after the consume of its challenge.
  abbrev pub after_consume : ℕ → EnrollDevice → Result (Option Bytes) → Handler
  after_consume now2 body (err e) = enrolled body (err e)
  after_consume now2 body (ok none) = enrolled body (err (http 401 "unknown or expired challenge"))
  after_consume now2 body (ok (some nonce)) =
      after_verify body (
        forbidden_of_rejected
          (verify lower C P now2 (map from_base64 body.certificate_chain) nonce))

  unfoldable pub resume_enroll :
      ℕ → ℕ → EnrollDevice → Result (Unit {0}) → kv.State → Handler × kv.State
  resume_enroll now1 now2 body (err e) s = (enrolled body (err e), s)
  resume_enroll now1 now2 body (ok u) s =
      let (nonce, after) = consume R kv now1 body.challenge_id (codes "enroll") s in
      (after_consume now2 body nonce, after)

  abbrev pub after_nonce : VerifyDevice → Result (Option Bytes) → Handler
  after_nonce body (err e) = verified body (err e)
  after_nonce body (ok nonce) = finding body nonce

  unfoldable pub resume_verify :
      ℕ → VerifyDevice → Result (Unit {0}) → kv.State → Handler × kv.State
  resume_verify now1 body (err e) s = (verified body (err e), s)
  resume_verify now1 body (ok u) s =
      let (nonce, after) = consume R kv now1 body.challenge_id (codes "verify") s in
      (after_nonce body nonce, after)

  -- `verify` after the lookup of the device.
  abbrev pub after_find :
      VerifyDevice → Option Bytes → Result (Option (EnrolledDevice R C)) → Handler
  after_find body found (err e) = verified body (err e)
  after_find body found (ok device) =
      verified body (check_signature R C kv lower P found device body.signature)

  -- The guard after the consume of the challenge, and after the lookup of the device.
  abbrev pub after_guard_nonce :
      DevicePolicy → DeviceHeaders → Text → Text → Result (Option Bytes) → Handler
  after_guard_nonce policy headers d g (err e) = guarded policy headers (err e)
  after_guard_nonce policy headers d g (ok none) =
      guarded policy headers
        (admit R C kv lower P policy (refuse (some d) device_challenge_invalid))
  after_guard_nonce policy headers d g (ok (some nonce)) = looking_up policy headers d g nonce

  abbrev pub after_lookup :
      DevicePolicy
      → DeviceHeaders
      → Text
      → Text
      → Bytes
      → Result (Option (EnrolledDevice R C))
      → Handler
  after_lookup policy headers d g nonce (err e) = guarded policy headers (err e)
  after_lookup policy headers d g nonce (ok device) =
      guarded policy headers
        (admit R C kv lower P policy (check_enrolled R C kv lower P d nonce g device))

  -- By the three headers of the device, its challenge and its signature.
  unfoldable pub resume_guard :
      ℕ
      → DevicePolicy
      → DeviceHeaders
      → Text
      → Option Text
      → Option Text
      → Option Text
      → kv.State
      → Handler × kv.State
  resume_guard now policy headers purpose (some (d ∷ ds)) (some (c ∷ cs)) (some (g ∷ gs)) s =
      let (nonce, after) = consume R kv now (c ∷ cs) purpose s in
      (after_guard_nonce policy headers (d ∷ ds) (g ∷ gs) nonce, after)
  resume_guard now policy headers purpose d c g s = (
    guarded policy headers (admit R C kv lower P policy (refuse none device_signature_missing)),
    s,
  )

  unfoldable pub resume : ℕ → ℕ → Handler → kv.State → Handler × kv.State
  unfolding resume_enroll resume_verify resume_guard
  resume now now2 (challenging id nonce purpose) s =
      let (r, after) = challenge R C kv lower P now id nonce purpose s in (challenged r, after)
  resume now now2 (enrolling body) s =
      resume_enroll now now2 body (assert_configured R C kv lower P) s
  resume now now2 (binding body a) s =
      let (r, after) = bind_key R C kv lower P now body.device_id a s in (enrolled body r, after)
  resume now now2 (verifying body) s = resume_verify now body (assert_configured R C kv lower P) s
  resume now now2 (finding body nonce) s =
      let (r, after) = Devices.get R C kv now body.device_id s in (after_find body nonce r, after)
  resume now now2 (guarding policy headers purpose) s =
      resume_guard now policy headers purpose headers.x_device_id headers.x_device_challenge_id
        headers.x_device_signature s
  resume now now2 (looking_up policy headers d g nonce) s =
      let (r, after) = Devices.get R C kv now d s in
      (after_lookup policy headers d g nonce r, after)
  resume now now2 h s = (h, s)

  -- The requests that are under way, and the store.
  pub record System : Type 0 where
    pub pool : List Handler
    pub store : kv.State

  -- Any request of the pool runs to its next wait, at any times.
  pub data Step (s : System) : System → Type 0 where
    pick :
        (before : List Handler) (h : Handler) (after : List Handler) (now now2 : ℕ)
        → s.pool ≡ before ++ h ∷ after
        → Step s (record {
          pool = before ++ (resume now now2 h s.store).0 ∷ after;
          store = (resume now now2 h s.store).1;
        })

  pub data Reach (s : System) : System → Type 0 where
    start : Reach s s
    later : {t u : System} → Reach s t → Step t u → Reach s u
