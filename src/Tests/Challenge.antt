-- ===== src/Tests/Challenge.antt =====
-- Challenges and the registry's format.
use encryption_gateway.Prelude.{codes, text_eq, List, [], ◌∷◌, some, ◌≡◌, ◌≢◌, refl, arith, ok}
use encryption_gateway.Runtime.{num}
use encryption_gateway.Kv.Memory.{MemoryKvStore, empty}
use encryption_gateway.Kv.Memory.AsPort.{memory_port, memory_laws}
use encryption_gateway.Attestation.Challenges.{issue, consume}
use encryption_gateway.Attestation.Challenges.SingleUse.{
  Call, issuing, consuming, after_all, consume_once,
}
use encryption_gateway.Attestation.Challenges.Exchange
use encryption_gateway.Attestation.Challenges.Exchange.{consume-issue}
use encryption_gateway.Attestation.Devices.{EnrolledDevice}
use encryption_gateway.Tests.Toys.{toy_runtime, toy_crypto}

-- The challenge `c` with the nonce 7, issued for enrolment.
abbrev pub issued : MemoryKvStore
issued = (issue toy_runtime memory_port 10 (codes "c") (7 ∷ []) (codes "enroll") (empty 5)).1

issued-IsReadable : Exchange.IsReadable toy_runtime (7 ∷ []) (codes "enroll")
issued-IsReadable = record { json = refl; some_text = ground arith; base64 = refl }

consume-issue_example :
    (consume toy_runtime memory_port 20 (codes "c") (codes "enroll") issued).0 ≡ ok (some (7 ∷ []))
unfolding text_eq
consume-issue_example =
    consume-issue toy_runtime 10 20 (codes "c") (7 ∷ []) (codes "enroll") (codes "enroll") (empty 5)
      tt issued-IsReadable

pub first_consume :
    (consume toy_runtime memory_port 20 (codes "c") (codes "enroll") issued).0 ≡ ok (some (7 ∷ []))
unfolding text_eq
first_consume =
    consume-issue toy_runtime 10 20 (codes "c") (7 ∷ []) (codes "enroll") (codes "enroll") (empty 5)
      tt issued-IsReadable

-- It is consumed, another challenge is issued, and it is asked for again.
abbrev more_calls : List (Call toy_runtime toy_crypto memory_port)
more_calls =
    issuing 30 (codes "d") (8 ∷ []) (codes "enroll") ∷ consuming 31 (codes "d") (codes "x") ∷ []

consume_once_example :
    (consume toy_runtime memory_port 40 (codes "c") (codes "enroll") (
      after_all toy_runtime toy_crypto memory_port more_calls
        (consume toy_runtime memory_port 20 (codes "c") (codes "enroll") issued).1)).0
    ≢ ok (some (7 ∷ []))
consume_once_example =
    consume_once toy_runtime toy_crypto memory_port memory_laws 20 40 (codes "c") (codes "enroll")
      (codes "enroll") issued (some (7 ∷ [])) more_calls (7 ∷ []) first_consume
      (ground arith, (tt, tt))

abbrev a_device : EnrolledDevice toy_runtime toy_crypto
a_device = record { public_key = 5; security_level = some (num 1); enrolled_at = 30 }
