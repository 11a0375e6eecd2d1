-- ===== src/Attestation/Chain/Verdict.antt =====
-- AttestationService.verify accepts exactly the chains that the policy trusts.
use encryption_gateway.Prelude.{
  ℕ, ◌≤◌, Text, text_eq_iff, List, [], ◌∷◌, length, map, Option, none, some, true, ltb, Result, ok,
  err, rejected, crash, http, ◌≡◌, ◌↔◌, ◌⊎◌, inl, inr, refl, All, arith, >>=-eq-ok, ap, Bool-cases,
  String,
}
use encryption_gateway.Runtime.{Bytes}
use encryption_gateway.Attestation.Crypto.{Crypto, KeyDescription}
use encryption_gateway.Attestation.Chain.{
  AttestationPolicy, required, or_else, min, malformed_of_throw, parse_all, check_signatures, last,
  check_root, check_validity, check_revoked, find_extension, read_description, check_description,
  Attested, check_leaf, verify_chain, verify,
}
use encryption_gateway.Attestation.Chain.Trust.{
  IsSigned, IsInDate, IsNotRevoked, HasTrustedRoot, HasVerifiedBoot, IsAllowedApp, app_of,
  signatures_iff, root_iff, validity_iff, revoked_iff, boot_iff, application_iff,
}

module _ (lower : Text → Text) (C : Crypto) (P : AttestationPolicy) where
  open C use {Key, Cert, certificate, public_key, extensions, key_description, key_description_id}

  -- What the leaf's record must say for the challenge to be answered at a level.
  pub record IsGoodRecord (d : KeyDescription) (challenge : Bytes) (level : ℕ) : Type 0 where
    pub answers : d.attestation_challenge ≡ challenge
    pub level_is : level ≡ min d.attestation_security_level d.keymaster_security_level
    pub secure : P.min_security_level ≤ level
    pub boot : P.require_verified_boot ≡ true → HasVerifiedBoot lower C P d.root_of_trust
    pub app :
        IsAllowedApp lower C P
          (app_of lower C P (or_else d.tee_application_id d.software_application_id))

  same_length : (a b : Bytes) → a ≡ b → length a ≡ length b
  same_length a b e = ap length e

  description_sound :
      (d : KeyDescription) (challenge : Bytes) (level : ℕ)
      → check_description lower C P d challenge ≡ ok level
      → IsGoodRecord d challenge level
  unfolding check_description
  description_sound d challenge level h =
      let application = application_iff lower C P d in
      let boots = boot_iff lower C P d in
      ground (arith, text_eq_iff d.attestation_challenge challenge, application, boots)

  description_complete :
      (d : KeyDescription) (challenge : Bytes) (level : ℕ)
      → IsGoodRecord d challenge level
      → check_description lower C P d challenge ≡ ok level
  unfolding check_description
  description_complete d challenge level g = ground (
    arith,
    text_eq_iff d.attestation_challenge challenge,
    same_length d.attestation_challenge challenge,
    application_iff lower C P d,
    boot_iff lower C P d,
  )

  -- The record stands in the leaf: `none` where a parse throws or there is none.
  abbrev pub record_of : Option (Option (List (Text × Bytes))) → Option KeyDescription
  record_of none = none
  record_of (some none) = none
  record_of (some (some exts)) = elim (find_extension lower C P exts) [
    | none ↦ none
    | some value ↦ key_description value
  ]

  abbrev pub leaf_record : List Bytes → Option KeyDescription
  leaf_record [] = none
  leaf_record (der ∷ ders) = record_of (extensions der)

  abbrev pub leaf_key : List Cert → Option Key
  leaf_key [] = none
  leaf_key (cert ∷ certs) = public_key cert

  pub record IsTrusted (now : ℕ) (ders : List Bytes) (challenge : Bytes) (a : Attested lower C P)
      (chain : List Cert) (d : KeyDescription) : Type 0 where
    pub long : 2 ≤ length ders
    pub parsed : map certificate ders ≡ map some chain
    pub signed : IsSigned lower C P chain
    pub root : HasTrustedRoot lower C P P.trusted_root_public_keys (last lower C P chain)
    pub dates : All (IsInDate lower C P now) chain
    pub not_revoked : All (IsNotRevoked lower C P) chain
    pub described : leaf_record ders ≡ some d
    pub good : IsGoodRecord d challenge a.security_level
    pub key : leaf_key chain ≡ some a.public_key

  parse_all_sound :
      (ders : List Bytes) (chain : List Cert)
      → parse_all lower C P ders ≡ ok chain
      → map certificate ders ≡ map some chain
  unfolding parse_all
  parse_all_sound [] chain h = ground arith
  parse_all_sound (der ∷ ders) chain h =
      let (cert, one, rest) = >>=-eq-ok (required (certificate der)) _ h in
      let (certs, more, all) = >>=-eq-ok (parse_all lower C P ders) _ rest in
      ground (arith, parse_all_sound ders certs more)

  parse_all_complete :
      (ders : List Bytes) (chain : List Cert)
      → map certificate ders ≡ map some chain
      → parse_all lower C P ders ≡ ok chain
  unfolding parse_all
  parse_all_complete [] [] h = refl
  parse_all_complete [] (c ∷ cs) h = cc
  parse_all_complete (der ∷ ders) [] h = cc
  parse_all_complete (der ∷ ders) (c ∷ cs) h = ground (arith, parse_all_complete ders cs)

  leaf_sound :
      (ders : List Bytes) (chain : List Cert) (challenge : Bytes) (a : Attested lower C P)
      → check_leaf lower C P ders chain challenge ≡ ok a
      → (d : KeyDescription) × (leaf_record ders ≡ some d)
        × IsGoodRecord d challenge a.security_level
        × (leaf_key chain ≡ some a.public_key)
  unfolding check_leaf
  leaf_sound [] chain challenge a h = cc
  leaf_sound (der ∷ ders) [] challenge a h = cc
  leaf_sound (der ∷ ders) (cert ∷ certs) challenge a h =
      let (d, reads, rest) = >>=-eq-ok (read_description lower C P der) _ h in
      let (level, checks, done) = >>=-eq-ok (check_description lower C P d challenge) _ rest in
      let good = description_sound d challenge level checks in
      (d, description_read der d reads, ground arith, ground arith)
    where
      description_read :
          (leaf : Bytes) (e : KeyDescription)
          → read_description lower C P leaf ≡ ok e
          → record_of (extensions leaf) ≡ some e
      description_read leaf e r = unfold read_description in ground arith

  leaf_complete :
      (ders : List Bytes) (chain : List Cert) (challenge : Bytes) (a : Attested lower C P)
      (d : KeyDescription)
      → leaf_record ders ≡ some d
      → IsGoodRecord d challenge a.security_level
      → leaf_key chain ≡ some a.public_key
      → check_leaf lower C P ders chain challenge ≡ ok a
  unfolding check_leaf read_description
  leaf_complete [] chain challenge a d r g k = cc
  leaf_complete (der ∷ ders) [] challenge a d r g k = cc
  leaf_complete (der ∷ ders) (cert ∷ certs) challenge a d r g k =
      ground (arith, description_complete d challenge a.security_level g)

  verify_chain_sound :
      (now : ℕ) (ders : List Bytes) (challenge : Bytes) (a : Attested lower C P)
      → 2 ≤ length ders
      → verify_chain lower C P now ders challenge ≡ ok a
      → (chain : List Cert) × (d : KeyDescription) × IsTrusted now ders challenge a chain d
  unfolding verify_chain
  verify_chain_sound now ders challenge a long h =
      let (chain, parsed, h1) = >>=-eq-ok (parse_all lower C P ders) _ h in
      let (u1, signed, h2) = >>=-eq-ok (check_signatures lower C P chain) _ h1 in
      let (u2, root, h3) = >>=-eq-ok (check_root lower C P chain) _ h2 in
      let (u3, dates, h4) = >>=-eq-ok (check_validity lower C P now chain) _ h3 in
      let (u4, fresh, h5) = >>=-eq-ok (check_revoked lower C P chain) _ h4 in
      let (d, described, good, key) = leaf_sound ders chain challenge a h5 in
      (
        chain,
        d,
        record {
          long = long;
          parsed = parse_all_sound ders chain parsed;
          signed = (signatures_iff lower C P chain).0 signed;
          root = (root_iff lower C P chain).0 root;
          dates = (validity_iff lower C P now chain).0 dates;
          not_revoked = (revoked_iff lower C P chain).0 fresh;
          described = described;
          good = good;
          key = key;
        },
      )

  malformed_of_throw-eq-ok {ℓ} :
      {A : Type ℓ} (r : Result A) {a : A} → malformed_of_throw r ≡ ok a → r ≡ ok a
  malformed_of_throw-eq-ok (ok b) h = h
  malformed_of_throw-eq-ok (err (rejected code)) h = cc
  malformed_of_throw-eq-ok (err (http n m)) h = cc
  malformed_of_throw-eq-ok (err (crash m)) h = cc

  -- A chain is accepted with a key and a level exactly when it is trusted: its certificates
  -- parse, each is signed by the next and the last by itself, the root is one that the policy
  -- trusts, all are in date and none is revoked, and the leaf's record answers the challenge, at
  -- the security level and in the boot state that the policy asks for, for the policy's app with
  -- allowed signers only; the key is the leaf's and the level the lower of the two in the record.
  pub verify_iff :
      (now : ℕ) (ders : List Bytes) (challenge : Bytes) (a : Attested lower C P)
      → (verify lower C P now ders challenge ≡ ok a)
        ↔ ((chain : List Cert) × (d : KeyDescription) × IsTrusted now ders challenge a chain d)
  unfolding verify
  verify_iff now ders challenge a = (
    λ h. elim (Bool-cases (ltb (length ders) 2)) [
      | inl short ↦ ground arith
      | inr long ↦
          verify_chain_sound now ders challenge a (ground arith)
            (malformed_of_throw-eq-ok (verify_chain lower C P now ders challenge) (ground arith))
    ],
    λ (chain, d, t). verify_complete chain d t,
  )
    where
      verify_complete :
          (chain : List Cert) (d : KeyDescription)
          → IsTrusted now ders challenge a chain d
          → verify lower C P now ders challenge ≡ ok a
      verify_complete chain d t =
          unfold verify_chain in
          ground (
            arith,
            t.long,
            parse_all_complete ders chain t.parsed,
            (signatures_iff lower C P chain).1 t.signed,
            (root_iff lower C P chain).1 t.root,
            (validity_iff lower C P now chain).1 t.dates,
            (revoked_iff lower C P chain).1 t.not_revoked,
            leaf_complete ders chain challenge a d t.described t.good t.key,
          )

  -- Whatever a chain is, `verify` returns a verdict: what is not accepted is an
  -- AttestationRejectedError, also where a parser or a key operation throws.
  pub verify_rejects :
      (now : ℕ) (ders : List Bytes) (challenge : Bytes)
      → ((a : Attested lower C P) × (verify lower C P now ders challenge ≡ ok a))
        ⊎ ((code : String) × (verify lower C P now ders challenge ≡ err (rejected code)))
  unfolding verify
  verify_rejects now ders challenge = elim (Bool-cases (ltb (length ders) 2)) [
    | inl short ↦ inr ("NOT_A_CHAIN", ground arith)
    | inr long ↦ rw long (verdict (verify_chain lower C P now ders challenge))
  ]
    where
      verdict :
          (r : Result (Attested lower C P))
          → ((a : Attested lower C P) × (malformed_of_throw r ≡ ok a))
            ⊎ ((code : String) × (malformed_of_throw r ≡ err (rejected code)))
      verdict (ok a) = inl (a, refl)
      verdict (err (rejected code)) = inr (code, refl)
      verdict (err (http n m)) = inr ("MALFORMED", refl)
      verdict (err (crash m)) = inr ("MALFORMED", refl)
