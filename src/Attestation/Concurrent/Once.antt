-- ===== src/Attestation/Concurrent/Once.antt =====
-- However the requests are interleaved, a challenge lets one of them through.
pub mod Weights
pub mod Calls
pub mod Moves
use encryption_gateway.Prelude.{total_le, total, ◌≤◌, Text, List, All, arith}
use encryption_gateway.Runtime.{Runtime}
use encryption_gateway.Kv.{KvStore, KvLaws}
use encryption_gateway.Attestation.Crypto.{Crypto}
use encryption_gateway.Attestation.Challenges
use encryption_gateway.Attestation.Devices
use encryption_gateway.Attestation.Chain.{AttestationPolicy}
use encryption_gateway.Attestation.Concurrent.{Handler, System, Reach}
use encryption_gateway.Attestation.Concurrent.AtMostOne.{Reach-total}
use encryption_gateway.Attestation.Concurrent.Once.Weights.{
  succeeded, holds, IsRequest, IsQuiet, succeeded_light, requests_light,
}
use encryption_gateway.Attestation.Concurrent.Once.Calls.{IsGone}
use encryption_gateway.Attestation.Concurrent.Once.Moves.{resume-IsMove}

module _ (R : Runtime) (C : Crypto) (kv : KvStore) (lower : Text → Text) (P : AttestationPolicy)
    (id : Text) where
  -- However requests of the attestation routes and of guarded routes, none of which has begun, are
  -- interleaved over a store that keeps the laws of its port, with calls of the store that fail or
  -- not, at most one of them gets through by a challenge, so long as none of them issues it again.
  pub succeeded_once :
      (laws : KvLaws kv) (pool : List (Handler R C kv lower P)) (s : kv.State)
      (sys : System R C kv lower P)
      → All (IsRequest R C kv lower P id) pool
      → Reach R C kv lower P (record { pool = pool; store = s }) sys
      → total (succeeded R C kv lower P id) sys.pool ≤ 1
  succeeded_once laws pool s sys requests r =
      let (nothing, quiet) = requests_light R C kv lower P id pool requests in
      let few =
        Reach-total R C kv lower P (holds R C kv lower P id) (IsQuiet R C kv lower P id)
          (IsGone R C kv lower P id laws) (resume-IsMove R C kv lower P id laws) pool s sys nothing
          quiet r in
      omega (
        arith,
        few,
        total_le (succeeded R C kv lower P id) (holds R C kv lower P id)
            (succeeded_light R C kv lower P id) sys.pool,
      )
