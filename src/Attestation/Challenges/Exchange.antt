-- ===== src/Attestation/Challenges/Exchange.antt =====
-- ChallengeStore over MemoryKvStore: what a consume finds of a challenge that was issued.
use encryption_gateway.Prelude.{
  ℕ, ◌+◌, Text, text_eq, text_eq_iff, [], none, some, Bool, ok, ◌≡◌, ◌≢◌, refl, arith, length, ◌==◌,
  ◌&&◌, ltb, if◌then◌else◌, ==_iff, ap,
}
use encryption_gateway.OrderedMap.{IsDistinct}
use encryption_gateway.Runtime.{Bytes, Runtime, member}
use encryption_gateway.Kv.Memory.{MemoryKvStore, view, set}
use encryption_gateway.Kv.Memory.Views.{get_delete_once, set_lem}
use encryption_gateway.Kv.Memory.AsPort.{memory_port}
use encryption_gateway.Attestation.Challenges
use encryption_gateway.Attestation.Challenges.{
  issue, consume, read_challenge, check_purpose, stored_challenge, challenge_ttl_ms,
}

module _ (R : Runtime) where
  open R use {Num, parse, stringify, to_base64, from_base64, utf8}

  -- JSON and Base64 give back what was written, at this nonce and this purpose.
  pub record IsReadable (nonce : Bytes) (purpose : Text) : Type 0 where
    pub json :
        parse (stringify (stored_challenge R nonce purpose))
        ≡ some (stored_challenge R nonce purpose)
    pub some_text : stringify (stored_challenge R nonce purpose) ≢ []
    pub base64 : from_base64 (to_base64 nonce) ≡ nonce

  abbrev pub same_bytes : Text → Text → Bool
  same_bytes a b = text_eq (utf8 a) (utf8 b)

  equal_text : (a b : Bytes) → (length a == length b && text_eq a b) ≡ text_eq a b
  equal_text a b =
      ground (arith, text_eq_iff a b, ==_iff (length a) (length b), λ (e : a ≡ b). ap length e)

  check_purpose_stored :
      (nonce : Bytes) (purpose expected : Text)
      → from_base64 (to_base64 nonce) ≡ nonce
      → check_purpose R (stored_challenge R nonce purpose) expected
        ≡ ok (if same_bytes purpose expected then some nonce else none)
  unfolding check_purpose member text_eq
  check_purpose_stored nonce purpose expected h =
      ground (arith, equal_text (utf8 purpose) (utf8 expected))

  read_challenge_stored :
      (nonce : Bytes) (purpose expected : Text)
      → IsReadable nonce purpose
      → read_challenge R (some (stringify (stored_challenge R nonce purpose))) expected
        ≡ ok (if same_bytes purpose expected then some nonce else none)
  unfolding read_challenge
  read_challenge_stored nonce purpose expected r =
      ground (arith, r.some_text, r.json, check_purpose_stored nonce purpose expected r.base64)

  read_challenge-none : (expected : Text) → read_challenge R none expected ≡ ok none
  unfolding read_challenge
  read_challenge-none expected = refl

  consume-eq-read :
      (now : ℕ) (id expected : Text) (s : MemoryKvStore)
      → (consume R memory_port now id expected s).0
        ≡ read_challenge R (view now s (Challenges.key id)) expected
  unfolding consume
  consume-eq-read now id expected s =
      ap (λ raw. read_challenge R raw expected) (get_delete_once now (Challenges.key id) s).0

  -- In MemoryKvStore with distinct keys, where JSON and Base64 give back the challenge that was
  -- written: a consume at a time `t` directly after the issue at `now`, with no call in between,
  -- returns the nonce up to 60000 ms later if it names the purpose of the issue, and returns none
  -- after that time or for a purpose with other bytes.
  pub consume-issue :
      (now t : ℕ) (id : Text) (nonce : Bytes) (purpose expected : Text) (s : MemoryKvStore)
      → IsDistinct s.entries
      → IsReadable nonce purpose
      → (consume R memory_port t id expected (issue R memory_port now id nonce purpose s).1).0
        ≡ ok (
            if ltb (now + challenge_ttl_ms) t
            then none
            else if same_bytes purpose expected
            then some nonce
            else none)
  unfolding issue
  consume-issue now t id nonce purpose expected s d r =
      let text = stringify (stored_challenge R nonce purpose) in
      let stored = set now (Challenges.key id) text (some challenge_ttl_ms) s in
      ground (
        arith,
        consume-eq-read t id expected stored,
        (set_lem now (Challenges.key id) text (some challenge_ttl_ms) s d).0 t,
        read_challenge_stored nonce purpose expected r,
        read_challenge-none expected,
      )
