-- ===== src/Attestation/Concurrent/AtMostOne.antt =====
-- Requests that come to weigh 1 only while the store is not marked, and mark it then: at most one
-- of a pool does, however they are interleaved.
use encryption_gateway.Prelude.{
  ℕ, total, total-append, All-append, append-All, ◌+◌, ◌≤◌, Text, List, ◌∷◌, All, ◌≡◌, ◌⊎◌, arith,
  subst,
}
use encryption_gateway.Runtime.{Runtime}
use encryption_gateway.Kv.{KvStore}
use encryption_gateway.Attestation.Crypto.{Crypto}
use encryption_gateway.Attestation.Chain.{AttestationPolicy}
use encryption_gateway.Attestation.Concurrent.{
  Handler, resume, System, Step, pick, Reach, start, later,
}

module _ (R : Runtime) (C : Crypto) (kv : KvStore) (lower : Text → Text) (P : AttestationPolicy)
    (weight : Handler R C kv lower P → ℕ) (IsQuiet : Handler R C kv lower P → Type 0)
    (IsMarked : kv.State → Type 0) where
  -- What a run of one request does, from the weight `n` and the store `s`.
  pub record IsMove (n : ℕ) (s : kv.State) (h : Handler R C kv lower P) (t : kv.State)
      : Type 0 where
    pub quiet : IsQuiet h
    pub stays : IsMarked s → IsMarked t
    pub gains : (weight h ≤ n) ⊎ ((weight h ≡ 1) × (IsMarked s → ⊥) × IsMarked t)

  pub record Inv (sys : System R C kv lower P) : Type 0 where
    pub quiet : All IsQuiet sys.pool
    pub few : total weight sys.pool ≤ 1
    pub marked : 1 ≤ total weight sys.pool → IsMarked sys.store

  module _
      (move : (now now2 : ℕ) (h : Handler R C kv lower P) (s : kv.State)
        → IsQuiet h
        → IsMove
            (weight h)
            s
            (resume R C kv lower P now now2 h s).0
            (resume R C kv lower P now now2 h s).1) where
    Step-Inv :
        {sys next : System R C kv lower P} → Step R C kv lower P sys next → Inv sys → Inv next
    Step-Inv {sys} (pick before h after now now2 split) inv =
        let (quiet_before, (quiet, quiet_after)) =
          All-append IsQuiet before (h ∷ after) (subst (All IsQuiet) split inv.quiet) in
        let m = move now now2 h sys.store quiet in
        let old : total weight sys.pool ≡ total weight before + (weight h + total weight after) =
          rw split (total-append weight before (h ∷ after)) in
        let h' = (resume R C kv lower P now now2 h sys.store).0 in
        let new = total-append weight before (h' ∷ after) in
        record {
          quiet = append-All IsQuiet before (h' ∷ after) quiet_before (m.quiet, quiet_after);
          few = ground (arith, old, new, m.gains, inv.few, inv.marked);
          marked = ground (arith, old, new, m.gains, inv.marked, m.stays);
        }

    Reach-Inv :
        {sys next : System R C kv lower P} → Reach R C kv lower P sys next → Inv sys → Inv next
    Reach-Inv start inv = inv
    Reach-Inv (later r st) inv = Step-Inv st (Reach-Inv r inv)

    -- From a pool that weighs nothing, none is reached that weighs more than 1.
    pub Reach-total :
        (pool : List (Handler R C kv lower P)) (s : kv.State) (sys : System R C kv lower P)
        → total weight pool ≡ 0
        → All IsQuiet pool
        → Reach R C kv lower P (record { pool = pool; store = s }) sys
        → total weight sys.pool ≤ 1
    Reach-total pool s sys nothing quiet r =
        (Reach-Inv r (record {
          quiet = quiet;
          few = omega (arith, nothing);
          marked = λ one. absurd (omega (arith, one, nothing));
        })).few
