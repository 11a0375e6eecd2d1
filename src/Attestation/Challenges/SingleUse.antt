-- ===== src/Attestation/Challenges/SingleUse.antt =====
-- ChallengeStore over any store that keeps the port's laws: a challenge is used at most once,
-- whatever calls of the challenge store and of the device registry come in between, in any order
-- and at any times. A handler that waits for a call lets those of other handlers run, so that a
-- list of calls stands for every interleaving.
use encryption_gateway.Prelude.{
  ℕ, Text, List, [], ◌∷◌, Option, none, some, Bool, ok, ◌≡◌, ◌≢◌, All, arith, ap, drop,
}
use encryption_gateway.Exec.{state-continue, >>=-eq-ok}
use encryption_gateway.Runtime.{Bytes, Runtime}
use encryption_gateway.Kv.{KvStore, KvLaws}
use encryption_gateway.Attestation.Crypto.{Crypto}
use encryption_gateway.Attestation.Challenges
use encryption_gateway.Attestation.Challenges.{issue, consume, read_challenge}
use encryption_gateway.Attestation.Devices
use encryption_gateway.Attestation.Devices.{
  EnrolledDevice, get, enrol, has, delete, read_device, is_there,
}

-- The code unit behind "attestation:".
abbrev kind : Text → ℕ
kind t = elim (drop 12 t) [ [] ↦ 0 | c ∷ _ ↦ c ]

pub keys_apart : (a b : Text) → Challenges.key a ≢ Devices.key b
unfolding Challenges.key Devices.key
keys_apart a b e = omega (arith, ap kind e)

pub key_injective : (a b : Text) → Challenges.key a ≡ Challenges.key b → a ≡ b
unfolding Challenges.key
key_injective a b e = cc e

module _ (R : Runtime) (C : Crypto) (kv : KvStore) where
  -- A call of the challenge store or of the device registry.
  pub data Call : Type 0 where
    issuing : (now : ℕ) (id : Text) (nonce : Bytes) (purpose : Text) → Call
    consuming : (now : ℕ) (id expected : Text) → Call
    getting : (now : ℕ) (device_id : Text) → Call
    enrolling : (now : ℕ) (device_id : Text) → EnrolledDevice R C → Call
    asking : (now : ℕ) (device_id : Text) → Call
    deleting : (now : ℕ) (device_id : Text) → Call

  abbrev pub after : Call → kv.State → kv.State
  after (issuing now id nonce purpose) s = (issue R kv now id nonce purpose s).1
  after (consuming now id expected) s = (consume R kv now id expected s).1
  after (getting now d) s = (get R C kv now d s).1
  after (enrolling now d device) s = (enrol R C kv now d device s).1
  after (asking now d) s = (has R C kv now d s).1
  after (deleting now d) s = (delete R C kv now d s).1

  abbrev pub after_all : List Call → kv.State → kv.State
  after_all [] s = s
  after_all (c ∷ cs) s = after_all cs (after c s)

  -- No call of the list issues the challenge again.
  abbrev pub IsNoIssue : Text → Call → Type 0
  IsNoIssue id (issuing now other nonce purpose) = id ≢ other
  IsNoIssue id _ = Unit

module _ (R : Runtime) (C : Crypto) (kv : KvStore) (laws : KvLaws kv) where
  open laws use {Absent, absent-get_delete, get_delete-absent}

  pub after-Absent :
      (id : Text) (c : Call R C kv) (s : kv.State)
      → IsNoIssue R C kv id c
      → Absent (Challenges.key id) s
      → Absent (Challenges.key id) (after R C kv c s)
  unfolding issue consume get enrol has delete
  after-Absent id (issuing now other nonce purpose) s ne h =
      rw (state-continue {B = Text × Bytes} _ (λ _. ok (other, nonce)) _)
        (laws.set-keeps _ _ _ _ _ s (λ e. ne (key_injective id other e)) h)
  after-Absent id (consuming now other expected) s ne h =
      rw (state-continue _ (λ raw. read_challenge R raw expected) _)
        (laws.get_delete-keeps _ _ _ s h)
  after-Absent id (getting now d) s ne h =
      rw (state-continue {B = Option (EnrolledDevice R C)} _ (λ raw. ok (read_device R C raw)) _)
        (laws.get-keeps _ _ _ s h)
  after-Absent id (enrolling now d device) s ne h =
      laws.set_if_absent-keeps _ _ _ _ _ s (keys_apart id d) h
  after-Absent id (asking now d) s ne h =
      rw (state-continue {B = Bool} _ (λ raw. ok (is_there raw)) _) (laws.get-keeps _ _ _ s h)
  after-Absent id (deleting now d) s ne h = laws.delete-keeps _ _ _ s h

  after_all-Absent :
      (id : Text) (cs : List (Call R C kv)) (s : kv.State)
      → All (IsNoIssue R C kv id) cs
      → Absent (Challenges.key id) s
      → Absent (Challenges.key id) (after_all R C kv cs s)
  after_all-Absent id [] s ne h = h
  after_all-Absent id (c ∷ cs) s (ne, more) h =
      after_all-Absent id cs (after R C kv c s) more (after-Absent id c s ne h)

  -- A consume that returns has read the store.
  consume-inv :
      (now : ℕ) (id expected : Text) (s : kv.State) {found : Option Bytes}
      → (consume R kv now id expected s).0 ≡ ok found
      → (raw : Option Text) × ((kv.get_delete now (Challenges.key id) s).0 ≡ ok raw)
        × (read_challenge R raw expected ≡ ok found)
  unfolding consume
  consume-inv now id expected s h =
      >>=-eq-ok (λ t. kv.get_delete now (Challenges.key id) t)
        (λ raw t. (read_challenge R raw expected, t)) s h

  pub consume-Absent :
      (now : ℕ) (id expected : Text) (s : kv.State) (found : Option Bytes)
      → (consume R kv now id expected s).0 ≡ ok found
      → Absent (Challenges.key id) (consume R kv now id expected s).1
  unfolding consume
  consume-Absent now id expected s found h =
      let (raw, got, read) = consume-inv now id expected s h in
      rw (state-continue _ (λ raw. read_challenge R raw expected) _)
        (get_delete-absent now (Challenges.key id) s raw got)

  pub absent-consume :
      (now : ℕ) (id expected : Text) (s : kv.State) (nonce : Bytes)
      → Absent (Challenges.key id) s
      → (consume R kv now id expected s).0 ≢ ok (some nonce)
  unfolding read_challenge
  absent-consume now id expected s nonce h e =
      let (raw, got, read) = consume-inv now id expected s e in no_nonce raw got read
    where
      no_nonce :
          (raw : Option Text)
          → (kv.get_delete now (Challenges.key id) s).0 ≡ ok raw
          → read_challenge R raw expected ≡ ok (some nonce)
          → ⊥
      no_nonce none got read = cc
      no_nonce (some v) got read = absent-get_delete now (Challenges.key id) s v h got

  -- Once a consume has returned, with the nonce or without it, no later consume of the same
  -- challenge returns a nonce, for whatever purpose and whatever other calls come in between, so
  -- long as none of these issues the challenge again.
  pub consume_once :
      (now later : ℕ) (id expected other : Text) (s : kv.State) (found : Option Bytes)
      (cs : List (Call R C kv)) (nonce : Bytes)
      → (consume R kv now id expected s).0 ≡ ok found
      → All (IsNoIssue R C kv id) cs
      → (consume R kv later id other (after_all R C kv cs (consume R kv now id expected s).1)).0
        ≢ ok (some nonce)
  consume_once now later id expected other s found cs nonce h ne =
      absent-consume later id other _ nonce
        (after_all-Absent id cs _ ne (consume-Absent now id expected s found h))
