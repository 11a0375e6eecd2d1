-- ===== src/Attestation/Controller/Outcome.antt =====
-- AttestationController.enroll over the store in memory: what a success went through and wrote.
use encryption_gateway.Prelude.{
  ℕ, ◌≤◌, Text, codes, List, none, some, true, ok, ◌≡◌, arith, map, sym, ◌∙◌,
}
use encryption_gateway.Runtime.{Bytes, Runtime}
use encryption_gateway.Kv.Memory.{MemoryKvStore, view}
use encryption_gateway.Kv.Memory.Views.{get_delete_once, set_if_absent_free}
use encryption_gateway.Kv.Memory.AsPort.{memory_port}
use encryption_gateway.Attestation.Crypto.{Crypto, KeyDescription}
use encryption_gateway.Attestation.Challenges
use encryption_gateway.Attestation.Challenges.Purpose.{IsIssuedFor, consume-IsIssuedFor}
use encryption_gateway.Attestation.Devices
use encryption_gateway.Attestation.Devices.{EnrolledDevice, enrol, encode}
use encryption_gateway.Attestation.Chain.{AttestationPolicy, Attested}
use encryption_gateway.Attestation.Chain.Verdict.{IsTrusted, verify_iff}
use encryption_gateway.Attestation.Controller.{EnrollDevice, device_of, enroll}
use encryption_gateway.Attestation.Controller.Enrolment.{enroll-IsEnrolment, enroll_of_IsEnrolment}
use encryption_gateway.Attestation.Controller.Binding.{view-consume, bound_free}

module _ (R : Runtime) (C : Crypto) (lower : Text → Text) (P : AttestationPolicy) where
  open R use {stringify, from_base64}
  open C use {Cert}

  -- What an enrolment at a level found in the store `s`, and what the store `after` holds.
  pub record IsEnrolled (now1 now2 now3 : ℕ) (body : EnrollDevice) (s after : MemoryKvStore)
      (level : ℕ) : Type 0 where
    pub attested : Attested lower C P
    pub level_is : level ≡ attested.security_level
    pub configured : P.configured ≡ true
    pub raw : Text
    pub challenge_was : view now1 s (Challenges.key body.challenge_id) ≡ some raw
    pub nonce : Bytes
    pub issued : IsIssuedFor R raw (codes "enroll") nonce
    pub chain : List Cert
    pub record_of : KeyDescription
    pub trusted :
        IsTrusted lower C P now2
          (map from_base64 body.certificate_chain)
          nonce
          attested
          chain
          record_of
    pub free : view now3 s (Devices.key body.device_id) ≡ none
    pub written :
        (t : ℕ)
        → view t after (Devices.key body.device_id)
          ≡ some (stringify (encode R C (device_of R C memory_port lower P now3 attested)))

  view-enrol :
      (now t : ℕ) (d : Text) (device : EnrolledDevice R C) (s : MemoryKvStore)
      → view now s (Devices.key d) ≡ none
      → view t (enrol R C memory_port now d device s).1 (Devices.key d)
        ≡ some (stringify (encode R C device))
  unfolding enrol
  view-enrol now t d device s free =
      let raw = stringify (encode R C device) in
      ground (arith, (set_if_absent_free now (Devices.key d) raw none s free).1 t)

  -- In MemoryKvStore, where the key is bound no earlier than the challenge is consumed: an
  -- enrolment that succeeds at a level had a configured policy; the store held a text for the
  -- challenge that names the purpose `enroll` and a nonce; the given chain is trusted for that
  -- nonce, and the level is that of its leaf's record; nothing that had not expired stood under
  -- the device's id; and after the request the attested key, with its level and the date, stands
  -- there as it was written.
  pub enroll-IsEnrolled :
      (now1 now2 now3 : ℕ) (body : EnrollDevice) (s : MemoryKvStore) (level : ℕ)
      → now1 ≤ now3
      → (enroll R C memory_port lower P now1 now2 now3 body s).0 ≡ ok level
      → IsEnrolled now1 now2 now3 body s
          (enroll R C memory_port lower P now1 now2 now3 body s).1
          level
  enroll-IsEnrolled now1 now2 now3 body s level order h =
      let (a, level_is, e) =
        enroll-IsEnrolment R C memory_port lower P now1 now2 now3 body s level h in
      let (raw, taken, issued) =
        consume-IsIssuedFor R memory_port now1 body.challenge_id (codes "enroll") e.nonce s
          e.consumed in
      let (chain, d, trusted) =
        (verify_iff lower C P now2 (map from_base64 body.certificate_chain) e.nonce a).0
          e.attested in
      let free = bound_free R C lower P now1 now2 now3 body s a e in
      record {
        attested = a;
        level_is = level_is;
        configured = e.configured;
        raw = raw;
        challenge_was = was raw taken;
        nonce = e.nonce;
        issued = issued;
        chain = chain;
        record_of = d;
        trusted = trusted;
        free =
            sym (
              view-consume R C lower P now1 now3 body.challenge_id (codes "enroll") body.device_id s
                order)
            ∙ free;
        written = λ t.
            rw (enroll_of_IsEnrolment R C memory_port lower P now1 now2 now3 body s a e)
              (view-enrol now3 t body.device_id (device_of R C memory_port lower P now3 a) _ free);
      }
    where
      was :
          (raw : Text)
          → (memory_port.get_delete now1 (Challenges.key body.challenge_id) s).0 ≡ ok (some raw)
          → view now1 s (Challenges.key body.challenge_id) ≡ some raw
      was raw taken =
          ground (arith, (get_delete_once now1 (Challenges.key body.challenge_id) s).0, taken)
