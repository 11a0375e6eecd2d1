-- ===== src/Attestation/Chain/Trust.antt =====
-- AttestationService.verify accepts exactly the chains that the policy trusts. `IsTrusted` says
-- what that means, without the order of the checks.
use encryption_gateway.Prelude.{
  ℕ, Text, text_eq, text_eq_iff, List, [], ◌∷◌, any, map, Option, none, some, Bool, true, false, ok,
  guard, ◌≡◌, ◌≢◌, ◌↔◌, ◌⊎◌, All, arith,
}
use encryption_gateway.Runtime.{Bytes}
use encryption_gateway.Attestation.Crypto.{
  Crypto, KeyDescription, RootOfTrust, ApplicationId, verified,
}
use encryption_gateway.Attestation.Chain.{
  AttestationPolicy, strip_zeros, includes, or_else, is_before, is_after, check_signatures, last,
  check_root, check_validity, check_revoked, check_boot, check_digests, check_application,
}

-- `t` is one of the texts.
abbrev pub IsOneOf : Text → List Text → Type 0
IsOneOf t [] = ⊥
IsOneOf t (x ∷ xs) = (x ≡ t) ⊎ IsOneOf t xs

includes_iff : (xs : List Text) (t : Text) → (includes xs t ≡ true) ↔ IsOneOf t xs
includes_iff [] t = ground arith
includes_iff (x ∷ xs) t = ground (arith, text_eq_iff x t, includes_iff xs t)

any_iff : (xs : List Text) (t : Text) → (any (λ k. text_eq k t) xs ≡ true) ↔ IsOneOf t xs
any_iff [] t = ground arith
any_iff (x ∷ xs) t = ground (arith, text_eq_iff x t, any_iff xs t)

guard_iff : (b : Bool) (e : _) → (guard b e ≡ ok tt) ↔ (b ≡ true)
guard_iff b e = ground arith

module _ (lower : Text → Text) (C : Crypto) (P : AttestationPolicy) where
  open C use {
    Key, Cert, certificate, public_key, is_signed_by, serial_number, valid_from, valid_to,
    extensions, key_description, application_id, key_description_id, utf8_text, hex, export_spki,
  }

  abbrev pub signed_by : Cert → Option Key → Option Bool
  signed_by cert none = none
  signed_by cert (some key) = is_signed_by cert key

  -- Each certificate is signed by the key of the next one, the last by its own.
  abbrev pub IsSigned : List Cert → Type 0
  IsSigned [] = Unit
  IsSigned (cert ∷ []) = signed_by cert (public_key cert) ≡ some true
  IsSigned (cert ∷ issuer ∷ certs) =
      (signed_by cert (public_key issuer) ≡ some true) × IsSigned (issuer ∷ certs)

  -- Neither bound of the validity period is known to exclude the time.
  abbrev pub IsInDate : ℕ → Cert → Type 0
  IsInDate now cert =
      (is_before now (valid_from cert) ≡ false) × (is_after now (valid_to cert) ≡ false)

  abbrev pub IsNotRevoked : Cert → Type 0
  IsNotRevoked cert = ¬ IsOneOf (strip_zeros (lower (serial_number cert))) P.revoked_serials

  abbrev pub IsRootKey : List Bytes → Option Key → Type 0
  IsRootKey trusted none = ⊥
  IsRootKey trusted (some key) = IsOneOf (export_spki key) trusted

  abbrev pub HasTrustedRoot : Option (List Bytes) → Option Cert → Type 0
  HasTrustedRoot none root = Unit
  HasTrustedRoot (some trusted) none = ⊥
  HasTrustedRoot (some trusted) (some root) = IsRootKey trusted (public_key root)

  pub signatures_iff :
      (chain : List Cert) → (check_signatures lower C P chain ≡ ok tt) ↔ IsSigned chain
  unfolding check_signatures
  signatures_iff [] = ground arith
  signatures_iff (cert ∷ []) = ground arith
  signatures_iff (cert ∷ issuer ∷ certs) = ground (arith, signatures_iff (issuer ∷ certs))

  pub root_iff :
      (chain : List Cert)
      → (check_root lower C P chain ≡ ok tt)
        ↔ HasTrustedRoot P.trusted_root_public_keys (last lower C P chain)
  unfolding check_root
  root_iff chain = grind (arith, any_iff)

  pub validity_iff :
      (now : ℕ) (chain : List Cert)
      → (check_validity lower C P now chain ≡ ok tt) ↔ All (IsInDate now) chain
  unfolding check_validity
  validity_iff now [] = ground arith
  validity_iff now (cert ∷ certs) = ground (arith, validity_iff now certs)

  pub revoked_iff :
      (chain : List Cert) → (check_revoked lower C P chain ≡ ok tt) ↔ All IsNotRevoked chain
  unfolding check_revoked
  revoked_iff [] = ground arith
  revoked_iff (cert ∷ certs) = ground (
    arith,
    revoked_iff certs,
    includes_iff P.revoked_serials (strip_zeros (lower (serial_number cert))),
  )

  digests_iff :
      (digests : List Text)
      → (check_digests lower C P digests ≡ ok tt)
        ↔ All (λ d. IsOneOf d P.signing_cert_digests) digests
  unfolding check_digests
  digests_iff [] = ground arith
  digests_iff (d ∷ ds) = ground (arith, digests_iff ds, includes_iff P.signing_cert_digests d)

  -- The bootloader is locked and the system verified, where the policy asks for it.
  abbrev pub HasVerifiedBoot : Option RootOfTrust → Type 0
  HasVerifiedBoot none = ⊥
  HasVerifiedBoot (some root) = (root.device_locked ≡ true) × (root.verified_boot_state ≡ verified)

  pub boot_iff :
      (d : KeyDescription)
      → (check_boot lower C P d ≡ ok tt)
        ↔ (P.require_verified_boot ≡ true → HasVerifiedBoot d.root_of_trust)
  unfolding check_boot
  boot_iff d = ground arith

  -- The key was made by the app of the policy, and every signer of that app is allowed.
  abbrev pub IsAllowedApp : Option ApplicationId → Type 0
  IsAllowedApp none = ⊥
  IsAllowedApp (some app) =
      IsOneOf P.package_name (map utf8_text app.package_names)
      × (app.signature_digests ≢ [])
      × All (λ d. IsOneOf d P.signing_cert_digests) (map hex app.signature_digests)

  abbrev pub app_of : Option Bytes → Option ApplicationId
  app_of none = none
  app_of (some octets) = application_id octets

  pub application_iff :
      (d : KeyDescription)
      → (check_application lower C P d ≡ ok tt)
        ↔ IsAllowedApp (app_of (or_else d.tee_application_id d.software_application_id))
  unfolding check_application
  application_iff d = grind (arith, includes_iff, digests_iff)
