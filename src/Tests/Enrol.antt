-- ===== src/Tests/Enrol.antt =====
-- The verdict on a chain, and an enrolment.
use encryption_gateway.Prelude.{
  ℕ, codes, text_eq, List, [], ◌∷◌, none, some, ◌≡◌, ◌≢◌, ◌↔◌, ◌⊎◌, refl, arith, ok, err, rejected,
  String, ap, Text, true,
}
use encryption_gateway.OrderedMap
use encryption_gateway.Runtime.{Bytes}
use encryption_gateway.Kv.Memory.{
  MemoryKvStore, view, set, lookup, lookup_entry, write, evict_if_full, evict_oldest, get_delete,
  set_if_absent,
}
use encryption_gateway.Kv.Memory.AsPort.{memory_port}
use encryption_gateway.Attestation.Crypto.{KeyDescription}
use encryption_gateway.Attestation.Challenges
use encryption_gateway.Attestation.Challenges.{
  consume, issue, read_challenge, check_purpose, equals, buffer_from,
}
use encryption_gateway.Attestation.Devices
use encryption_gateway.Attestation.Devices.Codec
use encryption_gateway.Attestation.Devices.Evicted.{Issue, issue_all, enrolment_forgotten}
use encryption_gateway.Attestation.Chain.{
  Attested, verify, verify_chain, parse_all, check_signatures, check_root, check_validity,
  check_revoked, check_leaf, read_description, find_extension, check_description, check_boot,
  check_application, check_digests, strip_zeros,
}
use encryption_gateway.Attestation.Chain.Verdict.{IsTrusted, verify_iff, verify_rejects}
use encryption_gateway.Attestation.Controller.{EnrollDevice, enroll, device_of}
use encryption_gateway.Attestation.Controller.Enrolment.{IsEnrolment, enroll_of_IsEnrolment}
use encryption_gateway.Attestation.Controller.Outcome.{IsEnrolled, enroll-IsEnrolled}
use encryption_gateway.Attestation.Controller.Binding.{enroll-keeps, enroll-get}
use encryption_gateway.Tests.Toys.{same, toy_runtime, toy_crypto, toy_policy, leaf_der, root_der}
use encryption_gateway.Tests.Challenge.{issued, first_consume}

-- The leaf's key at the lower of the two levels of its record.
abbrev pub an_attested : Attested same toy_crypto toy_policy
an_attested = record { public_key = 5; security_level = 1 }

abbrev a_chain : List Bytes
a_chain = leaf_der ∷ root_der ∷ []

verify-accepts : verify same toy_crypto toy_policy 21 a_chain (7 ∷ []) ≡ ok an_attested
unfolding verify verify_chain parse_all check_signatures check_root check_validity check_revoked
    check_leaf read_description find_extension check_description check_boot check_application
    check_digests strip_zeros text_eq
verify-accepts = refl

verify_iff_example : (verify same toy_crypto toy_policy 21 a_chain (7 ∷ []) ≡ ok an_attested) ↔ (
    (chain : List Bytes) × (d : KeyDescription) × IsTrusted same toy_crypto toy_policy 21 a_chain
      (7 ∷ [])
      an_attested
      chain
      d)
verify_iff_example = verify_iff same toy_crypto toy_policy 21 a_chain (7 ∷ []) an_attested

verify_rejects_example :
    ((a : Attested same toy_crypto toy_policy) × (verify same toy_crypto toy_policy 21 a_chain
          (8 ∷ [])
        ≡ ok a))
    ⊎ ((code : String) × (verify same toy_crypto toy_policy 21 a_chain (8 ∷ [])
          ≡ err (rejected code)))
verify_rejects_example = verify_rejects same toy_crypto toy_policy 21 a_chain (8 ∷ [])

abbrev pub a_body : EnrollDevice
a_body = record { challenge_id = codes "c"; device_id = codes "u"; certificate_chain = a_chain }

-- The challenge of the store is consumed, and the device is enrolled.
a_body-IsEnrolment :
    IsEnrolment toy_runtime toy_crypto memory_port same toy_policy 20 21 22 a_body issued
      an_attested
unfolding consume issue Challenges.key Devices.enrol Devices.key set get_delete set_if_absent lookup
    lookup_entry write evict_if_full evict_oldest OrderedMap.get OrderedMap.set OrderedMap.delete
    text_eq read_challenge check_purpose equals buffer_from
a_body-IsEnrolment = record {
  nonce = 7 ∷ [];
  configured = refl;
  consumed = first_consume;
  attested = verify-accepts;
  bound = refl;
}

enrolled-ok :
    (enroll toy_runtime toy_crypto memory_port same toy_policy 20 21 22 a_body issued).0 ≡ ok 1
enrolled-ok =
    ap (λ r. r.0)
      (enroll_of_IsEnrolment toy_runtime toy_crypto memory_port same toy_policy 20 21 22 a_body
        issued an_attested a_body-IsEnrolment)

enroll-IsEnrolled_example :
    IsEnrolled toy_runtime toy_crypto same toy_policy 20 21 22 a_body issued
      (enroll toy_runtime toy_crypto memory_port same toy_policy 20 21 22 a_body issued).1
      1
enroll-IsEnrolled_example =
    enroll-IsEnrolled toy_runtime toy_crypto same toy_policy 20 21 22 a_body issued 1 (ground arith)
      enrolled-ok

device-IsReadable :
    Codec.IsReadable toy_runtime toy_crypto
      (device_of toy_runtime toy_crypto memory_port same toy_policy 22 an_attested)
device-IsReadable = record {
  json = refl;
  some_text = ground arith;
  base64 = refl;
  spki = refl;
  date = refl;
}

enroll-get_example :
    (view 22 issued (Devices.key (codes "u")) ≡ none)
    × ((t : ℕ)
        → (Devices.get toy_runtime toy_crypto memory_port t
            (codes "u")
            (enroll toy_runtime toy_crypto memory_port same toy_policy 20 21 22 a_body issued).1).0
          ≡ ok (some (device_of toy_runtime toy_crypto memory_port same toy_policy 22 an_attested)))
enroll-get_example =
    enroll-get toy_runtime toy_crypto same toy_policy 20 21 22 a_body issued an_attested
      device-IsReadable (ground arith) a_body-IsEnrolment

-- A store in which the device is enrolled already.
abbrev with_device : MemoryKvStore
with_device = record {
  entries =
      (Devices.key (codes "u"), record { value = 2 ∷ 6 ∷ 1 ∷ 9 ∷ []; expires_at = none }) ∷ [];
  max_entries = 5;
}

enrolled_already :
    (t : ℕ) → view t with_device (Devices.key (codes "u")) ≡ some (2 ∷ 6 ∷ 1 ∷ 9 ∷ [])
unfolding view OrderedMap.get Devices.key text_eq
enrolled_already t = refl

enroll-keeps_example :
    ((enroll toy_runtime toy_crypto memory_port same toy_policy 20 21 22 a_body with_device).0
      ≢ ok 1)
    × (view 30
          (enroll toy_runtime toy_crypto memory_port same toy_policy 20 21 22 a_body with_device).1
          (Devices.key (codes "u"))
        ≡ some (2 ∷ 6 ∷ 1 ∷ 9 ∷ []))
enroll-keeps_example =
    enroll-keeps toy_runtime toy_crypto same toy_policy 20 21 22 a_body with_device
      (2 ∷ 6 ∷ 1 ∷ 9 ∷ []) 1 30 (ground arith) enrolled_already (ground arith)

abbrev an_issue : Text → Issue
an_issue id = record { now = 30; id = id; nonce = 8 ∷ []; purpose = codes "enroll" }

abbrev five_issues : List Issue
five_issues =
    an_issue (codes "a")
    ∷ an_issue (codes "b")
    ∷ an_issue (codes "c")
    ∷ an_issue (codes "d")
    ∷ an_issue (codes "e")
    ∷ []

enrolment_forgotten_example :
    ((Devices.get toy_runtime toy_crypto memory_port 40
        (codes "u")
        (issue_all toy_runtime toy_crypto five_issues with_device)).0
      ≡ ok none)
    × ((Devices.enrol toy_runtime toy_crypto memory_port 40
          (codes "u")
          (device_of toy_runtime toy_crypto memory_port same toy_policy 40 an_attested)
          (issue_all toy_runtime toy_crypto five_issues with_device)).0
        ≡ ok true)
unfolding OrderedMap.has OrderedMap.get text_eq Challenges.key Devices.key
enrolment_forgotten_example =
    enrolment_forgotten toy_runtime toy_crypto 30 40 (codes "u")
      (device_of toy_runtime toy_crypto memory_port same toy_policy 40 an_attested) five_issues
      with_device
      (record { distinct = (refl, tt); bounded = ground arith; capacity = ground arith })
      (refl, (refl, (refl, (refl, (refl, tt)))))
      (ground arith, (ground arith, (ground arith, (ground arith, (ground arith, tt)))))
      (refl, (refl, (refl, (refl, (refl, tt))))) (ground arith)
