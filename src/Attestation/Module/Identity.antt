-- ===== src/Attestation/Module/Identity.antt =====
-- When attestation is configured: the identity of the app is there as a whole.
use encryption_gateway.Prelude.{
  Text, List, [], ◌∷◌, All, true, false, Result, ok, err, ◌≡◌, ◌≢◌, ◌↔◌, refl, arith, subst, sym,
}
use encryption_gateway.JsText.{is_given}
use encryption_gateway.Runtime.{Bytes}
use encryption_gateway.Config.{Config}
use encryption_gateway.Attestation.Chain.{AttestationPolicy}
use encryption_gateway.Attestation.Module.{
  is_sha256, check_digests, is_empty, package_of, digests_of, policy_of, policy_from_config,
  policy_or_disabled, safe_policy_from_config,
}
use encryption_gateway.Attestation.Module.Production.{policy_from_config-IsMade}

check_digests_iff : (ds : List Text) → (check_digests ds ≡ ok tt) ↔ All (λ d. is_sha256 d ≡ true) ds
unfolding check_digests
check_digests_iff [] = ground arith
check_digests_iff (d ∷ ds) = ground (arith, check_digests_iff ds)

given : (t : Text) → is_given t ≡ true → t ≢ []
given [] h = ground arith
given (c ∷ t) h = ground arith

filled : (ds : List Text) → is_empty ds ≡ false → ds ≢ []
filled [] h = ground arith
filled (d ∷ ds) h = ground arith

-- The app's package and one digest at least, all of them SHA-256 in lower-case hexadecimal.
pub record HasIdentity (P : AttestationPolicy) : Type 0 where
  pub app_package : P.package_name ≢ []
  pub some_digest : P.signing_cert_digests ≢ []
  pub digests : All (λ d. is_sha256 d ≡ true) P.signing_cert_digests

module _ (lower : Text → Text) (google_root_keys : List Bytes) (env : Config) where
  policy_or_disabled-HasIdentity :
      (config : Config) (r : Result AttestationPolicy)
      → policy_from_config lower google_root_keys env config ≡ r
      → (policy_or_disabled lower google_root_keys env r).configured ≡ true
      → HasIdentity (policy_or_disabled lower google_root_keys env r)
  policy_or_disabled-HasIdentity config (err e) h c = ground (arith, c)
  policy_or_disabled-HasIdentity config (ok P) h c =
      let made = policy_from_config-IsMade lower google_root_keys env config P h in
      let c' : (policy_of lower google_root_keys env config made.allow_software).configured ≡ true =
        subst (λ (Q : AttestationPolicy). Q.configured ≡ true) made.policy_is c in
      subst HasIdentity (sym made.policy_is) (record {
        app_package = given (package_of lower google_root_keys env config) (ground (arith, c'));
        some_digest = filled (digests_of lower google_root_keys env config) (ground (arith, c'));
        digests =
            (check_digests_iff (digests_of lower google_root_keys env config)).0 made.digests_ok;
      })

  -- Attestation counts as configured only with the app's package and one signing certificate at
  -- least, all of them SHA-256 digests in lower-case hexadecimal.
  pub safe_policy_from_config-HasIdentity :
      (config : Config)
      → (safe_policy_from_config lower google_root_keys env config).configured ≡ true
      → HasIdentity (safe_policy_from_config lower google_root_keys env config)
  unfolding safe_policy_from_config
  safe_policy_from_config-HasIdentity config c =
      policy_or_disabled-HasIdentity config (policy_from_config lower google_root_keys env config)
        refl c
