-- ===== src/Attestation/Challenges/Purpose.antt =====
-- ChallengeStore: what the text of a challenge says where a consume returns its nonce.
use encryption_gateway.Prelude.{
  ℕ, Text, [], ◌∷◌, codes, text_eq_iff, Option, none, some, true, false, Result, ok, err, ◌≡◌, refl,
  arith, inl, inr, ◌⊎◌, Failure,
}
use encryption_gateway.Exec.{>>=-eq-ok}
use encryption_gateway.Runtime.{Bytes, Json, Runtime}
use encryption_gateway.Kv.{KvStore}
use encryption_gateway.Attestation.Challenges
use encryption_gateway.Attestation.Challenges.{
  property, buffer_from, equals, check_purpose, read_challenge, consume,
}

Result-cases {ℓ} :
    {A : Type ℓ} (r : Result A) → ((a : A) × (r ≡ ok a)) ⊎ ((e : Failure) × (r ≡ err e))
Result-cases (ok a) = inl (a, refl)
Result-cases (err e) = inr (e, refl)

Option-cases {ℓ} : {A : Type ℓ} (o : Option A) → (o ≡ none) ⊎ ((a : A) × (o ≡ some a))
Option-cases none = inl refl
Option-cases (some a) = inr (a, refl)

module _ (R : Runtime) where
  open R use {Num, parse, from_base64, utf8}

  -- A text that is JSON, whose member `purpose` has the bytes of this purpose and whose member
  -- `nonce` is this nonce in Base64.
  pub record IsIssuedFor (raw purpose : Text) (nonce : Bytes) : Type 0 where
    pub stored : Json Num
    pub parsed : parse raw ≡ some stored
    pub purpose_of : Option (Json Num)
    pub purpose_is : property (codes "purpose") stored ≡ ok purpose_of
    pub same_purpose : buffer_from R utf8 purpose_of ≡ ok (utf8 purpose)
    pub nonce_of : Option (Json Num)
    pub nonce_is : property (codes "nonce") stored ≡ ok nonce_of
    pub same_nonce : buffer_from R from_base64 nonce_of ≡ ok nonce

  equals_sound :
      (a : Option (Json Num)) (b : Text)
      → equals R a b ≡ ok true
      → buffer_from R utf8 a ≡ ok (utf8 b)
  unfolding equals
  equals_sound a b h = elim (Result-cases (buffer_from R utf8 a)) [
    | inl (left, read) ↦ ground (arith, read, h, text_eq_iff left (utf8 b))
    | inr (e, fails) ↦ ground (arith, fails, h)
  ]

  check_purpose_sound :
      (raw purpose : Text) (stored : Json Num) (nonce : Bytes)
      → parse raw ≡ some stored
      → check_purpose R stored purpose ≡ ok (some nonce)
      → IsIssuedFor raw purpose nonce
  unfolding check_purpose
  check_purpose_sound raw purpose stored nonce parsed h =
      elim (Result-cases (property (codes "purpose") stored)) [
        | inr (e, fails) ↦ ground (arith, fails, h)
        | inl (p, read) ↦ elim (Result-cases (equals R p purpose)) [
          | inr (e, fails) ↦ ground (arith, read, fails, h)
          | inl (false, other) ↦ ground (arith, read, other, h)
          | inl (true, same) ↦ elim (Result-cases (property (codes "nonce") stored)) [
            | inr (e, fails) ↦ ground (arith, read, same, fails, h)
            | inl (n, has) ↦ record {
              stored = stored;
              parsed = parsed;
              purpose_of = p;
              purpose_is = read;
              same_purpose = equals_sound p purpose same;
              nonce_of = n;
              nonce_is = has;
              same_nonce = elim (Result-cases (buffer_from R from_base64 n)) [
                | inl (b, decoded) ↦ ground (arith, read, same, has, decoded, h)
                | inr (e, fails) ↦ ground (arith, read, same, has, fails, h)
              ];
            }
          ]
        ]
      ]

  read_challenge_sound :
      (found : Option Text) (purpose : Text) (nonce : Bytes)
      → read_challenge R found purpose ≡ ok (some nonce)
      → (raw : Text) × (found ≡ some raw) × IsIssuedFor raw purpose nonce
  unfolding read_challenge
  read_challenge_sound none purpose nonce h = cc
  read_challenge_sound (some []) purpose nonce h = cc
  read_challenge_sound (some (c ∷ cs)) purpose nonce h = elim (Option-cases (parse (c ∷ cs))) [
    | inl fails ↦ ground (arith, fails, h)
    | inr (stored, parsed) ↦ (
      c ∷ cs,
      refl,
      check_purpose_sound (c ∷ cs) purpose stored nonce parsed (ground (arith, parsed, h)),
    )
  ]

  -- A consume that returns a nonce found a text under the key of the challenge that names the
  -- purpose and the nonce.
  pub consume-IsIssuedFor :
      (kv : KvStore) (now : ℕ) (id purpose : Text) (nonce : Bytes) (s : kv.State)
      → (consume R kv now id purpose s).0 ≡ ok (some nonce)
      → (raw : Text) × ((kv.get_delete now (Challenges.key id) s).0 ≡ ok (some raw))
        × IsIssuedFor raw purpose nonce
  unfolding consume
  consume-IsIssuedFor kv now id purpose nonce s h =
      let (found, got, reads) =
        >>=-eq-ok (λ t. kv.get_delete now (Challenges.key id) t)
          (λ raw t. (read_challenge R raw purpose, t)) s h in
      let (raw, same, issued) = read_challenge_sound found purpose nonce reads in
      (raw, rw same at got, issued)
