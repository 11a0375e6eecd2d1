-- ===== src/Attestation/Controller/Binding.antt =====
-- AttestationController.enroll over the store in memory: a device keeps the key that it enrolled
-- with, and a key that enrols is the one that is found later.
use encryption_gateway.Prelude.{
  ℕ, ◌≤◌, Text, codes, Option, none, some, Result, ok, err, ◌≡◌, ◌≢◌, arith, map, sym, ◌∙◌, List,
  http,
}
use encryption_gateway.Exec.{Exec, ◌>>=◌, continue}
use encryption_gateway.Runtime.{Bytes, Runtime}
use encryption_gateway.Kv.Memory.{MemoryKvStore, view, set_if_absent}
use encryption_gateway.Kv.Memory.Views.{
  get-eq-view, get_delete_once, set_if_absent_taken, set_if_absent_free, set_if_absent_iff,
}
use encryption_gateway.Kv.Memory.AsPort.{memory_port}
use encryption_gateway.Attestation.Crypto.{Crypto}
use encryption_gateway.Attestation.Challenges
use encryption_gateway.Attestation.Challenges.{consume}
use encryption_gateway.Attestation.Challenges.SingleUse.{keys_apart}
use encryption_gateway.Attestation.Devices
use encryption_gateway.Attestation.Devices.{EnrolledDevice, enrol, encode}
use encryption_gateway.Attestation.Devices.Codec.{IsReadable, read_device-encode}
use encryption_gateway.Attestation.Chain.{AttestationPolicy, Attested, verify}
use encryption_gateway.Attestation.Controller.{
  EnrollDevice, forbidden_of_rejected, assert_configured, device_of, bind_key, attest, enroll,
}
use encryption_gateway.Attestation.Controller.Enrolment.{IsEnrolment, enroll_of_IsEnrolment}

module _ (R : Runtime) (C : Crypto) (lower : Text → Text) (P : AttestationPolicy) where
  open R use {parse, stringify, to_base64, from_base64, date_of, iso}
  open C use {export_spki, create_public_key}

  -- A consume leaves the values of devices as they are.
  pub view-consume :
      (now t : ℕ) (id expected d : Text) (s : MemoryKvStore)
      → now ≤ t
      → view t (consume R memory_port now id expected s).1 (Devices.key d)
        ≡ view t s (Devices.key d)
  unfolding consume
  view-consume now t id expected d s h =
      (get_delete_once now (Challenges.key id) s).2 t (Devices.key d) (λ e. keys_apart id d (sym e))
        h

  module _ (now3 : ℕ) (d : Text) (raw : Text) (s : MemoryKvStore)
      (taken : (t : ℕ) → now3 ≤ t → view t s (Devices.key d) ≡ some raw) where
    bind_taken :
        (a : Attested lower C P) (t : ℕ)
        → now3 ≤ t
        → ((bind_key R C memory_port lower P now3 d a s).0
            ≡ err (http 409 "DEVICE_ALREADY_ENROLLED"))
          × (view t (bind_key R C memory_port lower P now3 d a s).1 (Devices.key d) ≡ some raw)
    unfolding bind_key enrol
    bind_taken a t h =
        let (refused, kept) =
          set_if_absent_taken now3 (Devices.key d)
            (stringify (encode R C (device_of R C memory_port lower P now3 a))) none s raw
            (taken now3 (omega arith)) in
        ground (arith, refused, kept t (Devices.key d) h, taken t h)

    attest_taken :
        (now2 t level : ℕ) (certificates : List Text) (nonce : Option Bytes)
        → now3 ≤ t
        → ((attest R C memory_port lower P now2 now3 d certificates nonce s).0 ≢ ok level)
          × (view t
                (attest R C memory_port lower P now2 now3 d certificates nonce s).1
                (Devices.key d)
              ≡ some raw)
    unfolding attest
    attest_taken now2 t level certificates none h = ground (arith, taken t h)
    attest_taken now2 t level certificates (some n) h =
        on_verdict (forbidden_of_rejected (verify lower C P now2 (map from_base64 certificates) n))
      where
        on_verdict :
            (r : Result (Attested lower C P))
            → ((((λ x. (r, x)) >>= bind_key R C memory_port lower P now3 d) s).0 ≢ ok level)
              × (view t
                    (((λ x. (r, x)) >>= bind_key R C memory_port lower P now3 d) s).1
                    (Devices.key d)
                  ≡ some raw)
        on_verdict (err e) = ground (arith, taken t h)
        on_verdict (ok a) = ground (arith, bind_taken a t h)

  module _ (now1 now2 now3 : ℕ) (body : EnrollDevice) (s : MemoryKvStore) (raw : Text)
      (order : now1 ≤ now3)
      (enrolled : (t : ℕ) → view t s (Devices.key body.device_id) ≡ some raw) where
    abbrev consumed : MemoryKvStore
    consumed = (consume R memory_port now1 body.challenge_id (codes "enroll") s).1

    consumed_taken : (t : ℕ) → now3 ≤ t → view t consumed (Devices.key body.device_id) ≡ some raw
    consumed_taken t h =
        view-consume now1 t body.challenge_id (codes "enroll") body.device_id s (omega arith)
        ∙ enrolled t

    abbrev attest_it : Option Bytes → Exec MemoryKvStore ℕ
    attest_it = attest R C memory_port lower P now2 now3 body.device_id body.certificate_chain

    continue_taken :
        (level t : ℕ) (r : Result (Option Bytes))
        → now3 ≤ t
        → ((continue r attest_it consumed).0 ≢ ok level)
          × (view t (continue r attest_it consumed).1 (Devices.key body.device_id) ≡ some raw)
    continue_taken level t (err e) h = ground (arith, consumed_taken t h)
    continue_taken level t (ok nonce) h =
        attest_taken now3 body.device_id raw consumed consumed_taken now2 t level
          body.certificate_chain nonce h

  -- While a device is enrolled, no request enrols it again: the request fails, whatever its
  -- challenge and its chain are, and the stored enrolment stays as it is.
  pub enroll-keeps :
      (now1 now2 now3 : ℕ) (body : EnrollDevice) (s : MemoryKvStore) (raw : Text) (level t : ℕ)
      → now1 ≤ now3
      → ((t : ℕ) → view t s (Devices.key body.device_id) ≡ some raw)
      → now3 ≤ t
      → ((enroll R C memory_port lower P now1 now2 now3 body s).0 ≢ ok level)
        × (view t
              (enroll R C memory_port lower P now1 now2 now3 body s).1
              (Devices.key body.device_id)
            ≡ some raw)
  unfolding enroll assert_configured
  enroll-keeps now1 now2 now3 body s raw level t h enrolled le =
      let found = (consume R memory_port now1 body.challenge_id (codes "enroll") s).0 in
      ground
        (arith, enrolled t, continue_taken now1 now2 now3 body s raw h enrolled level t found le)

  get-enrol :
      (now t : ℕ) (d : Text) (device : EnrolledDevice R C) (s : MemoryKvStore)
      → IsReadable R C device
      → view now s (Devices.key d) ≡ none
      → (Devices.get R C memory_port t d (enrol R C memory_port now d device s).1).0
        ≡ ok (some device)
  unfolding Devices.get enrol
  get-enrol now t d device s readable free =
      let raw = stringify (encode R C device) in
      let stored = (set_if_absent now (Devices.key d) raw none s).1 in
      ground (
        arith,
        (get-eq-view t (Devices.key d) stored).0,
        (set_if_absent_free now (Devices.key d) raw none s free).1 t,
        read_device-encode R C device readable,
      )

  pub bound_free :
      (now1 now2 now3 : ℕ) (body : EnrollDevice) (s : MemoryKvStore) (a : Attested lower C P)
      → IsEnrolment R C memory_port lower P now1 now2 now3 body s a
      → view now3
          (consume R memory_port now1 body.challenge_id (codes "enroll") s).1
          (Devices.key body.device_id)
        ≡ none
  unfolding enrol
  bound_free now1 now2 now3 body s a e =
      (set_if_absent_iff now3 (Devices.key body.device_id)
          (stringify (encode R C (device_of R C memory_port lower P now3 a))) none
          (consume R memory_port now1 body.challenge_id (codes "enroll") s).1).0
        (ground (arith, e.bound))

  -- In MemoryKvStore, where the key is bound no earlier than the challenge is consumed and JSON,
  -- Base64, the key's SPKI form and the date give back what was written: an enrolment that goes
  -- through its steps found nothing under the device's id that had not expired, and in the store
  -- that it leaves, with no call in between, the registry finds the attested key at any time, with
  -- the level and the date of the enrolment.
  pub enroll-get :
      (now1 now2 now3 : ℕ) (body : EnrollDevice) (s : MemoryKvStore) (a : Attested lower C P)
      → IsReadable R C (device_of R C memory_port lower P now3 a)
      → now1 ≤ now3
      → IsEnrolment R C memory_port lower P now1 now2 now3 body s a
      → (view now3 s (Devices.key body.device_id) ≡ none)
        × ((t : ℕ)
            → (Devices.get R C memory_port t body.device_id
                (enroll R C memory_port lower P now1 now2 now3 body s).1).0
              ≡ ok (some (device_of R C memory_port lower P now3 a)))
  enroll-get now1 now2 now3 body s a readable order e =
      let free = bound_free now1 now2 now3 body s a e in
      (
        sym (view-consume now1 now3 body.challenge_id (codes "enroll") body.device_id s order)
            ∙ free,
        λ t. rw (enroll_of_IsEnrolment R C memory_port lower P now1 now2 now3 body s a e) (
            get-enrol now3 t body.device_id (device_of R C memory_port lower P now3 a) _ readable
              free),
      )
