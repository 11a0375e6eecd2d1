-- ===== src/Tests/Concurrent.antt =====
-- Two requests, side by side.
use encryption_gateway.Prelude.{total, ◌≤◌, Text, codes, text_eq, [], ◌∷◌, ◌≡◌, refl, ok, err, http}
use encryption_gateway.OrderedMap
use encryption_gateway.OrderedMap.{OrderedMap}
use encryption_gateway.Runtime.{member}
use encryption_gateway.Kv.Memory.{MemoryKvStore}
use encryption_gateway.Kv.Memory.AsPort.{memory_port, memory_laws}
use encryption_gateway.Kv.Upstash.{upstash_port, command, read_answer, read_body, set_if_absent}
use encryption_gateway.Kv.Upstash.Durable.{upstash_keeps}
use encryption_gateway.Attestation.Challenges
use encryption_gateway.Attestation.Devices
use encryption_gateway.Attestation.Controller.{bind_key}
use encryption_gateway.Attestation.Concurrent.{
  Handler, binding, enrolling, enrolled, resume, System, pick, Reach, start, later,
}
use encryption_gateway.Attestation.Concurrent.Once.{succeeded_once}
use encryption_gateway.Attestation.Concurrent.Once.Weights.{succeeded}
use encryption_gateway.Attestation.Concurrent.Bound.{bound_once}
use encryption_gateway.Attestation.Concurrent.Bound.Weights.{bound}
use encryption_gateway.Tests.Toys.{same, toy_runtime, toy_crypto, toy_policy}
use encryption_gateway.Tests.Challenge.{issued}
use encryption_gateway.Tests.Enrol.{a_body, an_attested}
use encryption_gateway.Tests.Upstash.{
  toy_service, toy_service-IsRedis, toy_service-IsDurable, one_challenge,
}

abbrev MemoryHandler : Type 0
MemoryHandler = Handler toy_runtime toy_crypto memory_port same toy_policy

abbrev MemorySystem : Type 0
MemorySystem = System toy_runtime toy_crypto memory_port same toy_policy

abbrev two : MemoryHandler → MemoryHandler → MemoryKvStore → MemorySystem
two h g s = record { pool = h ∷ g ∷ []; store = s }

abbrev run : MemoryHandler → MemoryKvStore → MemoryHandler × MemoryKvStore
run h s = resume toy_runtime toy_crypto memory_port same toy_policy 20 21 h s

-- The second of two enrolments by one challenge runs first, then the first one, twice.
abbrev second_begun : MemoryHandler × MemoryKvStore
second_begun = run (enrolling a_body) issued

abbrev first_begun : MemoryHandler × MemoryKvStore
first_begun = run (enrolling a_body) second_begun.1

abbrev second_done : MemoryHandler × MemoryKvStore
second_done = run second_begun.0 first_begun.1

two_enrolments :
    Reach toy_runtime toy_crypto memory_port same toy_policy
      (two (enrolling a_body) (enrolling a_body) issued)
      (two first_begun.0 second_done.0 second_done.1)
two_enrolments =
    later
      (later (later start (pick (enrolling a_body ∷ []) (enrolling a_body) [] 20 21 refl))
        (pick [] (enrolling a_body) (second_begun.0 ∷ []) 20 21 refl))
      (pick (first_begun.0 ∷ []) second_begun.0 [] 20 21 refl)

succeeded_once_example :
    total
      (succeeded toy_runtime toy_crypto memory_port same toy_policy (codes "c"))
      (first_begun.0 ∷ second_done.0 ∷ [])
    ≤ 1
succeeded_once_example =
    succeeded_once toy_runtime toy_crypto memory_port same toy_policy (codes "c") memory_laws
      (enrolling a_body ∷ enrolling a_body ∷ []) issued
      (two first_begun.0 second_done.0 second_done.1) (tt, (tt, tt)) two_enrolments

abbrev ServiceHandler : Type 0
ServiceHandler = Handler toy_runtime toy_crypto (upstash_port toy_service) same toy_policy

abbrev serve : ServiceHandler → OrderedMap Text → ServiceHandler × OrderedMap Text
serve h s = resume toy_runtime toy_crypto (upstash_port toy_service) same toy_policy 20 21 h s

-- Two requests with the verified chain of a device, which bind it one after the other.
abbrev first_bound : ServiceHandler × OrderedMap Text
first_bound = serve (binding a_body an_attested) one_challenge

abbrev second_bound : ServiceHandler × OrderedMap Text
second_bound = serve (binding a_body an_attested) first_bound.1

abbrev two_bound : System toy_runtime toy_crypto (upstash_port toy_service) same toy_policy
two_bound = record { pool = first_bound.0 ∷ second_bound.0 ∷ []; store = second_bound.1 }

first_wins :
    (first_bound.0 ≡ enrolled a_body (ok 1))
    × (second_bound.0 ≡ enrolled a_body (err (http 409 "DEVICE_ALREADY_ENROLLED")))
unfolding resume bind_key Challenges.key Devices.enrol Devices.key command read_answer read_body
    member text_eq set_if_absent OrderedMap.set OrderedMap.has OrderedMap.get
first_wins = (refl, refl)

bound_once_example :
    total
      (bound toy_runtime toy_crypto (upstash_port toy_service) same toy_policy (codes "u"))
      (first_bound.0 ∷ second_bound.0 ∷ [])
    ≤ 1
bound_once_example =
    bound_once toy_runtime toy_crypto (upstash_port toy_service) same toy_policy (codes "u")
      (upstash_keeps toy_service toy_service-IsRedis toy_service-IsDurable)
      (binding a_body an_attested ∷ binding a_body an_attested ∷ []) one_challenge two_bound
      (tt, (tt, tt))
      (later
        (later start
          (pick [] (binding a_body an_attested) (binding a_body an_attested ∷ []) 20 21 refl))
        (pick (first_bound.0 ∷ []) (binding a_body an_attested) [] 20 21 refl))
