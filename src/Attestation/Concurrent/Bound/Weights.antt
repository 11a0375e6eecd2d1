-- ===== src/Attestation/Concurrent/Bound/Weights.antt =====
-- Which requests enrolled a device.
use encryption_gateway.Prelude.{
  ℕ, total, one_if, Text, text_eq, List, [], ◌∷◌, All, ok, err, ◌≡◌, refl, arith,
}
use encryption_gateway.Runtime.{Runtime}
use encryption_gateway.Kv.{KvStore}
use encryption_gateway.Attestation.Crypto.{Crypto}
use encryption_gateway.Attestation.Chain.{AttestationPolicy}
use encryption_gateway.Attestation.Concurrent.{Handler, enrolled}

module _ (R : Runtime) (C : Crypto) (kv : KvStore) (lower : Text → Text) (P : AttestationPolicy)
    (device_id : Text) where
  -- 1 for a request that enrolled the device.
  abbrev pub bound : Handler R C kv lower P → ℕ
  bound (enrolled body (ok level)) = one_if (text_eq body.device_id device_id)
  bound _ = 0

  -- Nothing was enrolled by this request.
  abbrev pub IsOpen : Handler R C kv lower P → Type 0
  IsOpen (enrolled body (ok level)) = ⊥
  IsOpen _ = Unit

  bound-IsOpen : (h : Handler R C kv lower P) → IsOpen h → bound h ≡ 0
  bound-IsOpen (enrolled body (ok level)) o = absurd o
  bound-IsOpen (enrolled body (err e)) o = refl
  bound-IsOpen h o = refl

  pub total-bound : (pool : List (Handler R C kv lower P)) → All IsOpen pool → total bound pool ≡ 0
  total-bound [] o = refl
  total-bound (h ∷ pool) (o, os) = omega (arith, bound-IsOpen h o, total-bound pool os)
