-- ===== src/Attestation/Concurrent/Once/Weights.antt =====
-- Which requests hold the nonce of a challenge, and which got through by it.
use encryption_gateway.Prelude.{
  one_if, total, ℕ, ◌≤◌, Text, text_eq, List, [], ◌∷◌, All, Option, none, some, Bool, false, ◌&&◌,
  ok, ◌≡◌, ◌≢◌, refl, arith,
}
use encryption_gateway.Runtime.{Runtime}
use encryption_gateway.Kv.{KvStore}
use encryption_gateway.Attestation.Crypto.{Crypto}
use encryption_gateway.Attestation.Chain.{AttestationPolicy}
use encryption_gateway.Attestation.Concurrent.{
  Handler, challenging, enrolling, binding, enrolled, verifying, finding, verified, guarding,
  looking_up, guarded,
}

-- challenge_id of the headers
abbrev pub names : Option Text → Text → Bool
names none id = false
names (some c) id = text_eq c id

module _ (R : Runtime) (C : Crypto) (kv : KvStore) (lower : Text → Text) (P : AttestationPolicy)
    (id : Text) where
  -- 1 for a request that got through by the challenge: an enrolment, a verification, a context of a
  -- verified device.
  abbrev pub succeeded : Handler R C kv lower P → ℕ
  succeeded (enrolled body (ok level)) = one_if (text_eq body.challenge_id id)
  succeeded (verified body (ok u)) = one_if (text_eq body.challenge_id id)
  succeeded (guarded policy headers (ok device)) =
      one_if (device.is_verified && names headers.x_device_challenge_id id)
  succeeded _ = 0

  -- 1 for a request that holds the challenge's nonce, or got through by it.
  abbrev pub holds : Handler R C kv lower P → ℕ
  holds (binding body a) = one_if (text_eq body.challenge_id id)
  holds (finding body (some nonce)) = one_if (text_eq body.challenge_id id)
  holds (looking_up policy headers d g nonce) = one_if (names headers.x_device_challenge_id id)
  holds h = succeeded h

  -- A request that has not begun, and does not issue the challenge.
  abbrev pub IsRequest : Handler R C kv lower P → Type 0
  IsRequest (challenging other nonce purpose) = id ≢ other
  IsRequest (enrolling body) = Unit
  IsRequest (verifying body) = Unit
  IsRequest (guarding policy headers purpose) = Unit
  IsRequest _ = ⊥

  -- A request that does not issue the challenge any more.
  abbrev pub IsQuiet : Handler R C kv lower P → Type 0
  IsQuiet (challenging other nonce purpose) = id ≢ other
  IsQuiet _ = Unit

  pub succeeded_light : (h : Handler R C kv lower P) → succeeded h ≤ holds h
  succeeded_light (binding body a) = omega arith
  succeeded_light (finding body none) = omega arith
  succeeded_light (finding body (some nonce)) = omega arith
  succeeded_light (looking_up policy headers d g nonce) = omega arith
  succeeded_light h = omega arith

  -- A request that has not begun holds nothing.
  pub holds-IsRequest : (h : Handler R C kv lower P) → IsRequest h → (holds h ≡ 0) × IsQuiet h
  holds-IsRequest (challenging other nonce purpose) r = (refl, r)
  holds-IsRequest (enrolling body) r = (refl, tt)
  holds-IsRequest (verifying body) r = (refl, tt)
  holds-IsRequest (guarding policy headers purpose) r = (refl, tt)
  holds-IsRequest _ r = absurd r

  pub requests_light :
      (pool : List (Handler R C kv lower P))
      → All IsRequest pool
      → (total holds pool ≡ 0) × All IsQuiet pool
  requests_light [] r = (refl, tt)
  requests_light (h ∷ pool) (r, rs) =
      let (nothing, quiet) = holds-IsRequest h r in
      let (rest, calm) = requests_light pool rs in (omega (arith, nothing, rest), (quiet, calm))
