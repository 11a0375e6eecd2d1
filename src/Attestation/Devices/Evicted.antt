-- ===== src/Attestation/Devices/Evicted.antt =====
-- An enrolment in MemoryKvStore, which shares the map with the challenges.
use encryption_gateway.Prelude.{
  ℕ, ◌+◌, ◌≤◌, Text, List, [], ◌∷◌, All, map, length, Bool-cases, inl, inr, ◌∙◌, text_eq_iff, none,
  some, true, false, ok, ◌≡◌, ◌≢◌, refl, arith, ap,
}
use encryption_gateway.OrderedMap
use encryption_gateway.OrderedMap.{OrderedMap, IsDistinct, has}
use encryption_gateway.Runtime.{Bytes, Runtime}
use encryption_gateway.Kv.Memory.{MemoryKvStore, IsValid, view, write, set}
use encryption_gateway.Kv.Memory.AsPort.{memory_port}
use encryption_gateway.Kv.Memory.Eviction.{max_entries-evict_if_full}
use encryption_gateway.Kv.Memory.Views.{get-eq-view, set_if_absent_free}
use encryption_gateway.Kv.Memory.Bounds.{write-IsValid}
use encryption_gateway.Kv.Memory.Crowded.{behind, length-behind, behind-write, absent-write}
use encryption_gateway.Attestation.Crypto.{Crypto}
use encryption_gateway.Attestation.Challenges
use encryption_gateway.Attestation.Challenges.{challenge_ttl_ms, issue}
use encryption_gateway.Attestation.Challenges.SingleUse.{keys_apart}
use encryption_gateway.Attestation.Devices
use encryption_gateway.Attestation.Devices.{EnrolledDevice, enrol}

-- A challenge that is issued at a time.
pub record Issue : Type 0 where
  pub now : ℕ
  pub id : Text
  pub nonce : Bytes
  pub purpose : Text

module _ (R : Runtime) (C : Crypto) where
  unfoldable pub issue_all : List Issue → MemoryKvStore → MemoryKvStore
  issue_all [] s = s
  issue_all (i ∷ is) s = issue_all is (issue R memory_port i.now i.id i.nonce i.purpose s).1

  -- The challenges under their keys.
  abbrev pub keyed : List Issue → OrderedMap Issue
  keyed is = map (λ i. (Challenges.key i.id, i)) is

  -- No challenge of the list has expired at `t`, and the store holds none of their keys.
  abbrev pub IsAlive : ℕ → Issue → Type 0
  IsAlive t i = (i.now ≤ t) × (t ≤ i.now + challenge_ttl_ms)

  abbrev pub IsNew : MemoryKvStore → Issue → Type 0
  IsNew s i = has (Challenges.key i.id) s.entries ≡ false

  -- The store after one issue.
  abbrev issued : Issue → MemoryKvStore → MemoryKvStore
  issued i s = (issue R memory_port i.now i.id i.nonce i.purpose s).1

  issued-IsValid : (i : Issue) (s : MemoryKvStore) → IsValid s → IsValid (issued i s)
  unfolding issue set
  issued-IsValid i s valid = write-IsValid i.now (Challenges.key i.id) s valid _ _

  absent_cons :
      (k j : Text) (v : Issue) (m : OrderedMap Issue)
      → has k ((j, v) ∷ m) ≡ false
      → (k ≢ j) × (has k m ≡ false)
  unfolding has OrderedMap.get
  absent_cons k j v m h = (λ e. ground (arith, h, text_eq_iff j k, e), ground (arith, h))

  issued-IsNew :
      (i : Issue) (s : MemoryKvStore) (is : List Issue)
      → has (Challenges.key i.id) (keyed is) ≡ false
      → All (IsNew s) is
      → All (IsNew (issued i s)) is
  unfolding issue set has OrderedMap.get
  issued-IsNew i s [] apart new = tt
  issued-IsNew i s (j ∷ js) apart (n, ns) =
      let (ne, rest) = absent_cons (Challenges.key i.id) (Challenges.key j.id) j (keyed js) apart in
      (
        absent-write i.now (Challenges.key i.id) (Challenges.key j.id) _ _ s ne n,
        issued-IsNew i s js rest ns,
      )

  issue-behind :
      (i : Issue) (t : ℕ) (d : Text) (s : MemoryKvStore)
      → IsAlive t i
      → IsNew s i
      → IsValid s
      → has (Devices.key d) (issued i s).entries ≡ true
      → (has (Devices.key d) s.entries ≡ true)
        × (behind t (Devices.key d) (issued i s).entries ≡ behind t (Devices.key d) s.entries + 1)
  unfolding issue set
  issue-behind i t d s alive new valid h =
      behind-write i.now t (Devices.key d) (Challenges.key i.id) _ (some challenge_ttl_ms) s alive.0
        (ground (arith, alive.1)) (keys_apart i.id d) valid.distinct new h

  crowded :
      (t : ℕ) (d : Text) (is : List Issue) (s : MemoryKvStore)
      → IsValid s
      → IsDistinct (keyed is)
      → All (IsAlive t) is
      → All (IsNew s) is
      → has (Devices.key d) (issue_all is s).entries ≡ true
      → (has (Devices.key d) s.entries ≡ true)
        × (length is + behind t (Devices.key d) s.entries
            ≤ behind t (Devices.key d) (issue_all is s).entries)
  unfolding issue_all
  crowded t d [] s valid distinct alive new there = (there, omega arith)
  crowded t d (i ∷ is) s valid distinct (a, alive) (n, ns) there =
      let (between, more) =
        crowded t d is (issued i s) (issued-IsValid i s valid) distinct.1 alive
          (issued-IsNew i s is distinct.0 ns) there in
      let (before, one) = issue-behind i t d s a n valid between in
      (before, omega (arith, more, one))

  max_entries-issued : (i : Issue) (s : MemoryKvStore) → (issued i s).max_entries ≡ s.max_entries
  unfolding issue set write
  max_entries-issued i s = max_entries-evict_if_full i.now _

  issue_all-IsValid :
      (is : List Issue) (s : MemoryKvStore)
      → IsValid s
      → IsValid (issue_all is s) × ((issue_all is s).max_entries ≡ s.max_entries)
  unfolding issue_all
  issue_all-IsValid [] s valid = (valid, refl)
  issue_all-IsValid (i ∷ is) s valid =
      let (all_valid, same) = issue_all-IsValid is (issued i s) (issued-IsValid i s valid) in
      (all_valid, same ∙ max_entries-issued i s)

  evicted :
      (t : ℕ) (d : Text) (is : List Issue) (s : MemoryKvStore)
      → IsValid s
      → IsDistinct (keyed is)
      → All (IsAlive t) is
      → All (IsNew s) is
      → s.max_entries ≤ length is
      → has (Devices.key d) (issue_all is s).entries ≡ false
  evicted t d is s valid distinct alive new many =
      elim (Bool-cases (has (Devices.key d) (issue_all is s).entries)) [
        | inr gone ↦ gone
        | inl there ↦
            let (all_valid, same) = issue_all-IsValid is s valid in
            let (before, more) = crowded t d is s valid distinct alive new there in
            let few = length-behind t (Devices.key d) (issue_all is s).entries there in
            absurd (omega (arith, same, more, few, many, all_valid.bounded))
      ]

  -- In MemoryKvStore, with distinct keys within its cap, an enrolment is forgotten once as many
  -- challenges are issued as the store may hold entries, if their ids are new and differ and none
  -- of them has expired at the time of the last: the device is not found, and its id can be
  -- enrolled again.
  pub enrolment_forgotten :
      (t now : ℕ) (d : Text) (device : EnrolledDevice R C) (is : List Issue) (s : MemoryKvStore)
      → IsValid s
      → IsDistinct (keyed is)
      → All (IsAlive t) is
      → All (IsNew s) is
      → s.max_entries ≤ length is
      → ((Devices.get R C memory_port now d (issue_all is s)).0 ≡ ok none)
        × ((enrol R C memory_port now d device (issue_all is s)).0 ≡ ok true)
  unfolding Devices.get enrol has OrderedMap.get Devices.read_device
  enrolment_forgotten t now d device is s valid distinct alive new many =
      let gone = evicted t d is s valid distinct alive new many in
      let unseen : view now (issue_all is s) (Devices.key d) ≡ none =
        unfold view in ground (arith, gone) in
      (
        ap (λ v. ok (Devices.read_device R C v))
            ((get-eq-view now (Devices.key d) (issue_all is s)).0 ∙ unseen),
        ap (λ b. ok b)
            (set_if_absent_free now (Devices.key d) (R.stringify (Devices.encode R C device)) none
              (issue_all is s) unseen).0,
      )
