-- ===== src/Attestation/Challenges.antt =====
-- The class ChallengeStore of attestation/challenge.store.ts. The random identifier and nonce of
-- a new challenge are arguments.
pub mod SingleUse
pub mod Exchange
pub mod Purpose
use encryption_gateway.Prelude.{
  ℕ, Text, codes, text_eq, [], ◌∷◌, ◌++◌, length, ◌==◌, ◌&&◌, Option, none, some, Bool, true, false,
  if◌then◌else◌, Result, ok, err, crash,
}
use encryption_gateway.Exec.{Exec, pure, lift, ◌>>=◌, ◌>>◌}
use encryption_gateway.Runtime.{Bytes, Json, null, str, obj, end, field, member, Runtime}
use encryption_gateway.Kv.{KvStore}

abbrev pub challenge_ttl_ms : ℕ
challenge_ttl_ms = 60000

unfoldable pub key : Text → Text
key challenge_id = codes "attestation:challenge:" ++ challenge_id

-- stored.name on a parsed value: null throws, undefined is `none`
abbrev pub property : {N : Type 0} → Text → Json N → Result (Option (Json N))
property name null = err (crash "TypeError")
property name (obj fields) = ok (member name fields)
property name _ = ok none

-- !raw: null and the empty string
abbrev pub is_missing : Option Text → Bool
is_missing none = true
is_missing (some []) = true
is_missing (some (_ ∷ _)) = false

abbrev pub text_or : Option Text → Text → Text
text_or none d = d
text_or (some t) d = t

module _ (R : Runtime) where
  open R use {Num, parse, stringify, to_base64, from_base64, utf8, buffer_of}

  -- Buffer.from(value, encoding), which reads a string by the encoding
  unfoldable pub buffer_from : (Text → Bytes) → Option (Json Num) → Result Bytes
  buffer_from decode (some (str t)) = ok (decode t)
  buffer_from decode v = elim (buffer_of v) [ none ↦ err (crash "TypeError") | some b ↦ ok b ]

  -- Buffers of two lengths differ; timingSafeEqual compares buffers of one length.
  unfoldable pub equals : Option (Json Num) → Text → Result Bool
  unfolding buffer_from
  equals a b = elim (buffer_from utf8 a) [
    | err e ↦ err e
    | ok left ↦ ok (length left == length (utf8 b) && text_eq left (utf8 b))
  ]

  abbrev pub stored_challenge : Bytes → Text → Json Num
  stored_challenge nonce purpose =
      obj
        (field (codes "nonce") (str (to_base64 nonce)) (field (codes "purpose") (str purpose) end))

  -- The rest of `consume`, on the parsed value.
  unfoldable pub check_purpose : Json Num → Text → Result (Option Bytes)
  unfolding equals
  check_purpose stored expected = elim (property (codes "purpose") stored) [
    | err e ↦ err e
    | ok purpose ↦ elim (equals purpose expected) [
      | err e ↦ err e
      | ok false ↦ ok none
      | ok true ↦ elim (property (codes "nonce") stored) [
        | err e ↦ err e
        | ok nonce ↦ elim (buffer_from from_base64 nonce) [ err e ↦ err e | ok b ↦ ok (some b) ]
      ]
    ]
  ]

  unfoldable pub read_challenge : Option Text → Text → Result (Option Bytes)
  unfolding check_purpose
  read_challenge raw expected = if is_missing raw then ok none else elim (parse (text_or raw [])) [
    | none ↦ ok none
    | some stored ↦ check_purpose stored expected
  ]

  module _ (kv : KvStore) where
    unfoldable pub issue : ℕ → Text → Bytes → Text → Exec kv.State (Text × Bytes)
    issue now challenge_id nonce purpose = do
      (λ s.
          kv.set now (key challenge_id) (stringify (stored_challenge nonce purpose))
            (some challenge_ttl_ms) s)
      pure (challenge_id, nonce)

    unfoldable pub consume : ℕ → Text → Text → Exec kv.State (Option Bytes)
    consume now challenge_id expected = do
      raw ← (λ s. kv.get_delete now (key challenge_id) s)
      lift (read_challenge raw expected)
