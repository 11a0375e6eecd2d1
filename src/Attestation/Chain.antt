-- ===== src/Attestation/Chain.antt =====
-- The class AttestationService of attestation/attestation.service.ts. A throw of `reject` is
-- `rejected code`; any other throw within `verifyChain` is `crash`, which `verify` turns into
-- `rejected "MALFORMED"`.
pub mod Trust
pub mod Verdict
use encryption_gateway.Prelude.{
  ℕ, Text, text_eq, List, [], ◌∷◌, length, any, map, Option, none, some, Bool, false, not, ◌&&◌,
  ◌||◌, ◌==◌, if◌then◌else◌, ltb, leb, Result, ok, err, crash, rejected, guard, ◌>>=◌, ◌>>◌,
}
use encryption_gateway.Runtime.{Bytes}
use encryption_gateway.Attestation.Crypto.{Crypto, KeyDescription, verified}

pub record AttestationPolicy : Type 0 where
  pub configured : Bool
  -- `none` is null: any root is accepted
  pub trusted_root_public_keys : Option (List Bytes)
  pub package_name : Text
  pub signing_cert_digests : List Text
  pub min_security_level : ℕ
  pub require_verified_boot : Bool
  pub revoked_serials : List Text

-- text.replace(/^0+(?=.)/, '') on a serial number, which holds no line break
unfoldable pub strip_zeros : Text → Text
strip_zeros [] = []
strip_zeros (c ∷ []) = c ∷ []
strip_zeros (c ∷ d ∷ s) = let rest = strip_zeros (d ∷ s) in if c == b'0' then rest else c ∷ d ∷ s

-- Array.includes and Set.has on strings
abbrev pub includes : List Text → Text → Bool
includes [] t = false
includes (x ∷ xs) t = text_eq x t || includes xs t

-- value ?? throw e
abbrev pub required {ℓ} : {A : Type ℓ} → Option A → Result A
required none = err (crash "throws")
required (some a) = ok a

-- left ?? right
abbrev pub or_else {ℓ} : {A : Type ℓ} → Option A → Option A → Option A
or_else none r = r
or_else (some a) r = some a

abbrev pub min : ℕ → ℕ → ℕ
min a b = if leb a b then a else b

-- a date that is not valid compares as false
abbrev pub is_before : ℕ → Option ℕ → Bool
is_before now none = false
is_before now (some t) = ltb now t

abbrev pub is_after : ℕ → Option ℕ → Bool
is_after now none = false
is_after now (some t) = ltb t now

-- The rest of `verify`: a throw that is no AttestationRejectedError becomes one.
abbrev pub malformed_of_throw {ℓ} : {A : Type ℓ} → Result A → Result A
malformed_of_throw (ok a) = ok a
malformed_of_throw (err (rejected code)) = err (rejected code)
malformed_of_throw (err _) = err (rejected "MALFORMED")

module _ (lower : Text → Text) (C : Crypto) (P : AttestationPolicy) where
  open C use {
    Key, Cert, certificate, public_key, is_signed_by, serial_number, valid_from, valid_to,
    extensions, key_description, application_id, key_description_id, utf8_text, hex, export_spki,
  }

  -- chainDer.map((der) => new X509Certificate(der))
  unfoldable pub parse_all : List Bytes → Result (List Cert)
  parse_all [] = ok []
  parse_all (der ∷ ders) = do
    cert ← required (certificate der)
    certs ← parse_all ders
    ok (cert ∷ certs)

  -- Step 1: each certificate is signed by the next, the last by itself.
  unfoldable pub check_signatures : List Cert → Result (Unit {0})
  check_signatures [] = ok tt
  check_signatures (cert ∷ []) = do
    key ← required (public_key cert)
    signed ← required (is_signed_by cert key)
    guard signed (rejected "CHAIN_SIGNATURE")
  check_signatures (cert ∷ issuer ∷ certs) = do
    key ← required (public_key issuer)
    signed ← required (is_signed_by cert key)
    guard signed (rejected "CHAIN_SIGNATURE")
    check_signatures (issuer ∷ certs)

  -- chain[chain.length - 1], which is undefined in an empty chain
  abbrev pub last : List Cert → Option Cert
  last [] = none
  last (cert ∷ []) = some cert
  last (cert ∷ issuer ∷ certs) = last (issuer ∷ certs)

  -- Step 2.
  unfoldable pub check_root : List Cert → Result (Unit {0})
  check_root chain = elim P.trusted_root_public_keys [
    | none ↦ ok tt
    | some trusted ↦ elim (last chain) [
      | none ↦ err (crash "TypeError")
      | some root ↦ do
        key ← required (public_key root)
        guard (any (λ k. text_eq k (export_spki key)) trusted) (rejected "UNTRUSTED_ROOT")
    ]
  ]

  -- Step 3.
  unfoldable pub check_validity : ℕ → List Cert → Result (Unit {0})
  check_validity now [] = ok tt
  check_validity now (cert ∷ certs) = do
    guard (not (is_before now (valid_from cert) || is_after now (valid_to cert)))
        (rejected "CHAIN_SIGNATURE")
    check_validity now certs

  -- Step 4.
  unfoldable pub check_revoked : List Cert → Result (Unit {0})
  unfolding strip_zeros
  check_revoked [] = ok tt
  check_revoked (cert ∷ certs) = do
    guard (not (includes P.revoked_serials (strip_zeros (lower (serial_number cert)))))
        (rejected "REVOKED")
    check_revoked certs

  -- extensions?.find((ext) => ext.extnID === id_ce_keyDescription)
  unfoldable pub find_extension : List (Text × Bytes) → Option Bytes
  find_extension [] = none
  find_extension ((id, value) ∷ exts) =
      if text_eq id key_description_id then some value else find_extension exts

  -- Step 5: the attestation record of the leaf certificate.
  unfoldable pub read_description : Bytes → Result KeyDescription
  unfolding find_extension
  read_description leaf = elim (extensions leaf) [
    | none ↦ err (crash "throws")
    | some none ↦ err (rejected "MALFORMED")
    | some (some exts) ↦ elim (find_extension exts) [
      | none ↦ err (rejected "MALFORMED")
      | some value ↦ required (key_description value)
    ]
  ]

  unfoldable pub check_boot : KeyDescription → Result (Unit {0})
  check_boot d =
      if P.require_verified_boot
      then elim d.root_of_trust [
        | none ↦ err (rejected "MALFORMED")
        | some root ↦
            guard root.device_locked (rejected "BOOTLOADER_UNLOCKED")
            >> guard (root.verified_boot_state == verified) (rejected "BOOT_NOT_VERIFIED")
      ]
      else ok tt

  unfoldable pub check_digests : List Text → Result (Unit {0})
  check_digests [] = ok tt
  check_digests (digest ∷ digests) = do
    guard (includes P.signing_cert_digests digest) (rejected "SIGNER_NOT_ALLOWED")
    check_digests digests

  -- Step 6.
  unfoldable pub check_application : KeyDescription → Result (Unit {0})
  unfolding check_digests
  check_application d = elim (or_else d.tee_application_id d.software_application_id) [
    | none ↦ err (rejected "MALFORMED")
    | some octets ↦ elim (application_id octets) [
      | none ↦ err (crash "throws")
      | some app ↦ do
        guard (includes (map utf8_text app.package_names) P.package_name)
            (rejected "PACKAGE_MISMATCH")
        guard (not (length app.signature_digests == 0)) (rejected "SIGNER_NOT_ALLOWED")
        check_digests (map hex app.signature_digests)
    ]
  ]

  unfoldable pub check_description : KeyDescription → Bytes → Result ℕ
  check_description d challenge =
      let level = min d.attestation_security_level d.keymaster_security_level in
      do
        guard
            (length d.attestation_challenge == length challenge
              && text_eq d.attestation_challenge challenge)
            (rejected "CHALLENGE_MISMATCH")
        guard (not (ltb level P.min_security_level)) (rejected "SECURITY_LEVEL")
        check_boot d
        check_application d
        ok level

  pub record Attested : Type 0 where
    pub public_key : Key
    pub security_level : ℕ

  -- chainDer[0] and chain[0].publicKey
  unfoldable pub check_leaf : List Bytes → List Cert → Bytes → Result Attested
  check_leaf (der ∷ _) (cert ∷ _) challenge = do
    d ← read_description der
    level ← check_description d challenge
    key ← required (public_key cert)
    ok (record { public_key = key; security_level = level })
  check_leaf _ _ challenge = err (crash "TypeError")

  unfoldable pub verify_chain : ℕ → List Bytes → Bytes → Result Attested
  verify_chain now ders challenge = do
    chain ← parse_all ders
    check_signatures chain
    check_root chain
    check_validity now chain
    check_revoked chain
    check_leaf ders chain challenge

  unfoldable pub verify : ℕ → List Bytes → Bytes → Result Attested
  verify now ders challenge =
      if ltb (length ders) 2
      then err (rejected "NOT_A_CHAIN")
      else malformed_of_throw (verify_chain now ders challenge)

  -- verifySignature
  unfoldable pub verify_signature : Key → Bytes → Bytes → Bool
  verify_signature key payload signature = elim (C.verify payload key signature) [
    | none ↦ false
    | some b ↦ b
  ]
