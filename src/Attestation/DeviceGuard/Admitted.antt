-- ===== src/Attestation/DeviceGuard/Admitted.antt =====
-- DeviceSignatureGuard lets an enrolled device in that signs a fresh challenge.
use encryption_gateway.Prelude.{
  ℕ, ◌+◌, ◌≤◌, ◌<◌, Text, [], ◌∷◌, length, none, some, true, ok, ◌≡◌, ◌≢◌, refl, arith, ap, sym,
  ◌∙◌, text_eq_refl,
}
use encryption_gateway.OrderedMap
use encryption_gateway.OrderedMap.{IsDistinct}
use encryption_gateway.Runtime.{Bytes, Runtime}
use encryption_gateway.Kv.{KvStore}
use encryption_gateway.Kv.Memory.{MemoryKvStore, view}
use encryption_gateway.Kv.Memory.Views.{get-eq-view, set_room}
use encryption_gateway.Kv.Memory.AsPort.{memory_port}
use encryption_gateway.Attestation.Crypto.{Crypto}
use encryption_gateway.Attestation.Challenges
use encryption_gateway.Attestation.Challenges.{issue, consume, challenge_ttl_ms}
use encryption_gateway.Attestation.Challenges.SingleUse.{keys_apart}
use encryption_gateway.Attestation.Challenges.Exchange.{IsReadable, consume-issue}
use encryption_gateway.Attestation.Controller.Binding.{view-consume}
use encryption_gateway.Attestation.Devices
use encryption_gateway.Attestation.Devices.{EnrolledDevice, read_device}
use encryption_gateway.Attestation.Chain.{AttestationPolicy, verify_signature}
use encryption_gateway.Attestation.DeviceGuard.{
  DevicePolicy, DeviceContext, DeviceHeaders, check_enrolled, check_nonce, check, admit,
  can_activate,
}
use encryption_gateway.Attestation.DeviceGuard.Verified.{IsSigned}

-- The context of a verified device.
abbrev pub verified : Text → DeviceContext
verified d = record { is_verified = true; device_id = some d; reason = none }

module _ (R : Runtime) (C : Crypto) (kv : KvStore) (lower : Text → Text)
    (P : AttestationPolicy) where
  check_given :
      (now1 now2 : ℕ) (d c g purpose : Text) (nonce : Bytes) (e : EnrolledDevice R C) (s : kv.State)
      → d ≢ []
      → c ≢ []
      → g ≢ []
      → (consume R kv now1 c purpose s).0 ≡ ok (some nonce)
      → (Devices.get R C kv now2 d (consume R kv now1 c purpose s).1).0 ≡ ok (some e)
      → verify_signature lower C P e.public_key nonce (R.from_base64 g) ≡ true
      → (check R C kv lower P now1 now2
          (record {
            x_device_id = some d;
            x_device_challenge_id = some c;
            x_device_signature = some g;
          })
          purpose
          s).0
        ≡ ok (verified d)
  unfolding check check_nonce check_enrolled
  check_given now1 now2 [] c g purpose nonce e s hd hc hg consumed found signed = absurd (hd refl)
  check_given now1 now2 (d ∷ ds) [] g purpose nonce e s hd hc hg consumed found signed =
      absurd (hc refl)
  check_given now1 now2 (d ∷ ds) (c ∷ cs) [] purpose nonce e s hd hc hg consumed found signed =
      absurd (hg refl)
  check_given now1 now2 (d ∷ ds) (c ∷ cs) (g ∷ gs) purpose nonce e s hd hc hg consumed found
        signed =
      ground (arith, consumed, found, signed)

  pub check_of_IsSigned :
      (now1 now2 : ℕ) (headers : DeviceHeaders) (purpose : Text) (s : kv.State) (d : Text)
      → IsSigned R C kv lower P now1 now2 headers purpose s d
      → (check R C kv lower P now1 now2 headers purpose s).0 ≡ ok (verified d)
  unfolding check
  check_of_IsSigned now1 now2 headers purpose s d i =
      rw (i.id_header, i.challenge_header, i.signature_header)
        (check_given now1 now2 d i.challenge_id i.signature purpose i.nonce i.enrolled s i.id_given
          i.challenge_given i.signature_given i.consumed i.found i.signed)

module _ (R : Runtime) (C : Crypto) (lower : Text → Text) (P : AttestationPolicy) where
  open R use {from_base64}

  -- What the registry finds is what can be seen under the device's key.
  get-eq-read :
      (t : ℕ) (d : Text) (s : MemoryKvStore)
      → (Devices.get R C memory_port t d s).0 ≡ ok (read_device R C (view t s (Devices.key d)))
  unfolding Devices.get
  get-eq-read t d s = ap (λ raw. ok (read_device R C raw)) (get-eq-view t (Devices.key d) s).0

  -- The issue of a challenge, with room to spare, and its consume leave a device in the registry.
  get-consume-issue :
      (now t1 t2 : ℕ) (id : Text) (nonce : Bytes) (purpose d : Text) (s : MemoryKvStore)
      → length (OrderedMap.delete (Challenges.key id) s.entries) < s.max_entries
      → t1 ≤ t2
      → (Devices.get R C memory_port t2 d
          (consume R memory_port t1 id purpose (issue R memory_port now id nonce purpose s).1).1).0
        ≡ (Devices.get R C memory_port t2 d s).0
  unfolding issue
  get-consume-issue now t1 t2 id nonce purpose d s room order =
      let stored = (issue R memory_port now id nonce purpose s).1 in
      get-eq-read t2 d (consume R memory_port t1 id purpose stored).1
      ∙ ap (λ raw. ok (read_device R C raw))
          (view-consume R C lower P t1 t2 id purpose d stored order
            ∙ set_room now (Challenges.key id) _ (some challenge_ttl_ms) s t2 (Devices.key d) room
                (λ e. keys_apart id d (sym e)))
      ∙ sym (get-eq-read t2 d s)

  -- A device that the registry knows gets a challenge while the store, whose keys are distinct, has
  -- room, signs its nonce with the enrolled key and sends the signature within 60000 ms, no header
  -- being empty: where JSON and Base64 give the challenge back, its request passes under either
  -- policy, with a context that names it as verified.
  pub can_activate-issue :
      (policy : DevicePolicy) (now t1 t2 : ℕ) (id : Text) (nonce : Bytes) (purpose d g : Text)
      (e : EnrolledDevice R C) (s : MemoryKvStore)
      → IsDistinct s.entries
      → IsReadable R nonce purpose
      → length (OrderedMap.delete (Challenges.key id) s.entries) < s.max_entries
      → t1 ≤ now + challenge_ttl_ms
      → t1 ≤ t2
      → d ≢ []
      → id ≢ []
      → g ≢ []
      → (Devices.get R C memory_port t2 d s).0 ≡ ok (some e)
      → verify_signature lower C P e.public_key nonce (from_base64 g) ≡ true
      → (can_activate R C memory_port lower P t1 t2 policy
          (record {
            x_device_id = some d;
            x_device_challenge_id = some id;
            x_device_signature = some g;
          })
          purpose
          (issue R memory_port now id nonce purpose s).1).0
        ≡ ok (verified d)
  unfolding can_activate admit
  can_activate-issue policy now t1 t2 id nonce purpose d g e s distinct readable room early order
        some_d some_id some_g found signed =
      let stored = (issue R memory_port now id nonce purpose s).1 in
      let consumed : (consume R memory_port t1 id purpose stored).0 ≡ ok (some nonce) = ground (
        arith,
        consume-issue R now t1 id nonce purpose purpose s distinct readable,
        text_eq_refl (R.utf8 purpose),
      ) in
      let let_in =
        check_given R C memory_port lower P t1 t2 d id g purpose nonce e stored some_d some_id
          some_g consumed (get-consume-issue now t1 t2 id nonce purpose d s room order ∙ found)
          signed in
      ground (arith, let_in)
