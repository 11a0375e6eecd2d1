-- ===== src/Attestation/Concurrent/Bound.antt =====
-- However the requests are interleaved, a device is enrolled by one of them, over a store that
-- forgets nothing.
pub mod Weights
pub mod Moves
use encryption_gateway.Prelude.{total, ◌≤◌, Text, List, [], ◌∷◌, All}
use encryption_gateway.Runtime.{Runtime}
use encryption_gateway.Kv.{KvStore, KvKeeps}
use encryption_gateway.Attestation.Crypto.{Crypto}
use encryption_gateway.Attestation.Challenges
use encryption_gateway.Attestation.Devices
use encryption_gateway.Attestation.Chain.{AttestationPolicy}
use encryption_gateway.Attestation.Concurrent.{Handler, System, Reach}
use encryption_gateway.Attestation.Concurrent.AtMostOne.{Reach-total}
use encryption_gateway.Attestation.Concurrent.Bound.Weights.{bound, IsOpen, total-bound}
use encryption_gateway.Attestation.Concurrent.Bound.Moves.{IsTaken, resume-IsMove}

module _ (R : Runtime) (C : Crypto) (kv : KvStore) (lower : Text → Text) (P : AttestationPolicy)
    (device_id : Text) where
  pool-All : (pool : List (Handler R C kv lower P)) → All (λ h. Unit {0}) pool
  pool-All [] = tt
  pool-All (h ∷ pool) = (tt, pool-All pool)

  -- However requests of the attestation routes and of guarded routes, none of which has enrolled a
  -- device yet, are interleaved over a store that keeps the values it is given without a lifetime,
  -- at most one of them enrols a device of the id.
  pub bound_once :
      (keeps : KvKeeps kv) (pool : List (Handler R C kv lower P)) (s : kv.State)
      (sys : System R C kv lower P)
      → All (IsOpen R C kv lower P device_id) pool
      → Reach R C kv lower P (record { pool = pool; store = s }) sys
      → total (bound R C kv lower P device_id) sys.pool ≤ 1
  bound_once keeps pool s sys open_all r =
      Reach-total R C kv lower P (bound R C kv lower P device_id) (λ h. Unit)
        (IsTaken R C kv lower P device_id keeps) (resume-IsMove R C kv lower P device_id keeps) pool
        s sys (total-bound R C kv lower P device_id pool open_all) (pool-All pool) r
