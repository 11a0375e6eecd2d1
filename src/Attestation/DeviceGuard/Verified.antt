-- ===== src/Attestation/DeviceGuard/Verified.antt =====
-- DeviceSignatureGuard: a request counts as verified exactly when the enrolled key of its device
-- signed the nonce of a challenge that it consumed.
use encryption_gateway.Prelude.{
  ℕ, Text, [], ◌∷◌, Option, none, some, true, ok, ◌≡◌, ◌≢◌, refl, arith,
}
use encryption_gateway.Exec.{>>=-eq-ok}
use encryption_gateway.Runtime.{Bytes, Runtime}
use encryption_gateway.Kv.{KvStore}
use encryption_gateway.Attestation.Crypto.{Crypto}
use encryption_gateway.Attestation.Challenges
use encryption_gateway.Attestation.Challenges.{consume}
use encryption_gateway.Attestation.Challenges.Purpose.{IsIssuedFor, consume-IsIssuedFor}
use encryption_gateway.Attestation.Devices
use encryption_gateway.Attestation.Devices.{EnrolledDevice}
use encryption_gateway.Attestation.Chain.{AttestationPolicy, verify_signature}
use encryption_gateway.Attestation.DeviceGuard.{
  report, required, DeviceContext, DeviceHeaders, check_enrolled, check_nonce, check, admit,
  can_activate,
}

module _ (R : Runtime) (C : Crypto) (kv : KvStore) (lower : Text → Text)
    (P : AttestationPolicy) where
  open R use {from_base64}

  -- The device named by the headers signed the nonce of the challenge named by the headers, whose
  -- text in the store was written for this purpose.
  pub record IsSigned (now1 now2 : ℕ) (headers : DeviceHeaders) (purpose : Text) (s : kv.State)
      (device_id : Text) : Type 0 where
    pub challenge_id : Text
    pub signature : Text
    pub nonce : Bytes
    pub enrolled : EnrolledDevice R C
    pub id_header : headers.x_device_id ≡ some device_id
    pub id_given : device_id ≢ []
    pub challenge_header : headers.x_device_challenge_id ≡ some challenge_id
    pub challenge_given : challenge_id ≢ []
    pub signature_header : headers.x_device_signature ≡ some signature
    pub signature_given : signature ≢ []
    pub raw : Text
    pub taken : (kv.get_delete now1 (Challenges.key challenge_id) s).0 ≡ ok (some raw)
    pub issued : IsIssuedFor R raw purpose nonce
    pub consumed : (consume R kv now1 challenge_id purpose s).0 ≡ ok (some nonce)
    pub found :
        (Devices.get R C kv now2 device_id (consume R kv now1 challenge_id purpose s).1).0
        ≡ ok (some enrolled)
    pub signed : verify_signature lower C P enrolled.public_key nonce (from_base64 signature) ≡ true

  -- What a device that the registry returns has to do with the verdict.
  enrolled_sound :
      (d g : Text) (n : Bytes) (found : Option (EnrolledDevice R C)) (device : DeviceContext)
      → check_enrolled R C kv lower P d n g found ≡ device
      → device.is_verified ≡ true
      → (e : EnrolledDevice R C) × (found ≡ some e)
        × (verify_signature lower C P e.public_key n (from_base64 g) ≡ true)
        × (device.device_id ≡ some d)
  unfolding check_enrolled
  enrolled_sound d g n none device h v = ground arith
  enrolled_sound d g n (some e) device h v = (e, refl, ground arith, ground arith)

  nonce_sound :
      (now : ℕ) (d g : Text) (nonce : Option Bytes) (s : kv.State) (device : DeviceContext)
      → (check_nonce R C kv lower P now d g nonce s).0 ≡ ok device
      → device.is_verified ≡ true
      → (n : Bytes) × (e : EnrolledDevice R C) × (nonce ≡ some n)
        × ((Devices.get R C kv now d s).0 ≡ ok (some e))
        × (verify_signature lower C P e.public_key n (from_base64 g) ≡ true)
        × (device.device_id ≡ some d)
  unfolding check_nonce
  nonce_sound now d g none s device h v = ground arith
  nonce_sound now d g (some n) s device h v =
      let (found, got, done) =
        >>=-eq-ok (Devices.get R C kv now d)
          (λ e t. (ok (check_enrolled R C kv lower P d n g e), t)) s h in
      let (e, same, signed, id) = enrolled_sound d g n found device (ground arith) v in
      (n, e, refl, rw same at got, signed, id)

  -- A request counts as verified only if the three headers are given, the store gave a text for
  -- the key of the challenge, by the call that also deletes it, which names this purpose and a
  -- nonce, the device is enrolled, and its enrolled key signed that nonce; the device that the
  -- context names is that device.
  pub check-IsSigned :
      (now1 now2 : ℕ) (headers : DeviceHeaders) (purpose : Text) (s : kv.State)
      (device : DeviceContext)
      → (check R C kv lower P now1 now2 headers purpose s).0 ≡ ok device
      → device.is_verified ≡ true
      → (d : Text) × (device.device_id ≡ some d) × IsSigned now1 now2 headers purpose s d
  unfolding check
  check-IsSigned now1 now2 headers purpose s device h v =
      from_headers headers.x_device_id headers.x_device_challenge_id headers.x_device_signature refl
        refl refl h
    where
      from_headers :
          (d c g : Option Text)
          → headers.x_device_id ≡ d
          → headers.x_device_challenge_id ≡ c
          → headers.x_device_signature ≡ g
          → (check R C kv lower P now1 now2
              (record { x_device_id = d; x_device_challenge_id = c; x_device_signature = g })
              purpose
              s).0
            ≡ ok device
          → (e : Text) × (device.device_id ≡ some e) × IsSigned now1 now2 headers purpose s e
      from_headers none c g _ _ _ r = ground arith
      from_headers (some []) c g _ _ _ r = ground arith
      from_headers (some (d ∷ ds)) none g _ _ _ r = ground arith
      from_headers (some (d ∷ ds)) (some []) g _ _ _ r = ground arith
      from_headers (some (d ∷ ds)) (some (c ∷ cs)) none _ _ _ r = ground arith
      from_headers (some (d ∷ ds)) (some (c ∷ cs)) (some []) _ _ _ r = ground arith
      from_headers (some (d ∷ ds)) (some (c ∷ cs)) (some (g ∷ gs)) p q w r =
          let (nonce, consumed, rest) =
            >>=-eq-ok (consume R kv now1 (c ∷ cs) purpose)
              (check_nonce R C kv lower P now2 (d ∷ ds) (g ∷ gs)) s r in
          let (n, e, same, got, signed, id) =
            nonce_sound now2 (d ∷ ds) (g ∷ gs) nonce _ device rest v in
          let (raw, taken, issued) =
            consume-IsIssuedFor R kv now1 (c ∷ cs) purpose n s (rw same at consumed) in
          (
            d ∷ ds,
            id,
            record {
              challenge_id = c ∷ cs;
              signature = g ∷ gs;
              nonce = n;
              enrolled = e;
              id_header = p;
              id_given = λ z. cc z;
              challenge_header = q;
              challenge_given = λ z. cc z;
              signature_header = w;
              signature_given = λ z. cc z;
              raw = raw;
              taken = taken;
              issued = issued;
              consumed = rw same at consumed;
              found = got;
              signed = signed;
            },
          )

  -- Under the policy `required` a request passes only with a context that is verified in that
  -- sense; under `report` every context that the check returns is attached, and passes.
  pub can_activate_lem :
      (now1 now2 : ℕ) (headers : DeviceHeaders) (purpose : Text) (s : kv.State)
      → ((device : DeviceContext)
          → (can_activate R C kv lower P now1 now2 required headers purpose s).0 ≡ ok device
          → (d : Text) × (device.device_id ≡ some d) × IsSigned now1 now2 headers purpose s d)
        × ((can_activate R C kv lower P now1 now2 report headers purpose s).0
            ≡ (check R C kv lower P now1 now2 headers purpose s).0)
  unfolding can_activate admit
  can_activate_lem now1 now2 headers purpose s = (
    λ device h.
        let (found, checked, admitted) =
          >>=-eq-ok (check R C kv lower P now1 now2 headers purpose)
            (λ e t. (admit R C kv lower P required e, t)) s (h) in
        let (same, v) = admit_required found device admitted in
        check-IsSigned now1 now2 headers purpose s device (rw same at checked) v,
    admit_all,
  )
    where
      admit_required :
          (found device : DeviceContext)
          → admit R C kv lower P required found ≡ ok device
          → (found ≡ device) × (device.is_verified ≡ true)
      admit_required found device h = ground arith

      admit_all :
          (can_activate R C kv lower P now1 now2 report headers purpose s).0
          ≡ (check R C kv lower P now1 now2 headers purpose s).0
      admit_all = ground arith
