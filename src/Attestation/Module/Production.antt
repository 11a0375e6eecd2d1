-- ===== src/Attestation/Module/Production.antt =====
-- The attestation policy in production, and what it means for a chain that is accepted.
use encryption_gateway.Prelude.{
  ℕ, ◌≤◌, Text, List, [], Option, none, some, Bool, true, false, not, ◌&&◌, Result, ok, err, crash,
  guard, ◌≡◌, ◌⊎◌, inl, inr, refl, arith, >>=-eq-ok, subst, sym,
}
use encryption_gateway.Runtime.{Bytes}
use encryption_gateway.Config.{Config, strict_boolean}
use encryption_gateway.Attestation.Crypto.{Crypto, KeyDescription, trusted_environment}
use encryption_gateway.Attestation.Chain.{AttestationPolicy, Attested, last, verify}
use encryption_gateway.Attestation.Chain.Trust.{HasTrustedRoot, IsRootKey, HasVerifiedBoot, IsOneOf}
use encryption_gateway.Attestation.Chain.Verdict.{IsTrusted, verify_iff}
use encryption_gateway.Attestation.Module.{
  check_digests, is_production, digests_of, emulator_mode, policy_of, policy_from_config,
  policy_or_disabled, safe_policy_from_config,
}

module _ (lower : Text → Text) (google_root_keys : List Bytes) (env : Config) where
  -- What a policy that was made without an error went through.
  pub record IsMade (config : Config) (P : AttestationPolicy) : Type 0 where
    pub allow_software : Bool
    pub production_ok : (allow_software && is_production lower google_root_keys env config) ≡ false
    pub digests_ok : check_digests (digests_of lower google_root_keys env config) ≡ ok tt
    pub policy_is : P ≡ policy_of lower google_root_keys env config allow_software

  pub policy_from_config-IsMade :
      (config : Config) (P : AttestationPolicy)
      → policy_from_config lower google_root_keys env config ≡ ok P
      → IsMade config P
  unfolding policy_from_config
  policy_from_config-IsMade config P h =
      let (mode, m, h1) =
        >>=-eq-ok (strict_boolean config "ATTESTATION_ALLOW_SOFTWARE" false) _ h in
      let (allow, a, h2) = >>=-eq-ok (emulator_mode lower google_root_keys env config mode) _ h1 in
      let (u1, production, h3) =
        >>=-eq-ok
          (guard (not (allow && is_production lower google_root_keys env config))
            (crash "ATTESTATION_ALLOW_SOFTWARE must not be true when NODE_ENV=production"))
          _ h2 in
      let (u2, digests, h4) =
        >>=-eq-ok (check_digests (digests_of lower google_root_keys env config)) _ h3 in
      record {
        allow_software = allow;
        production_ok = ground (arith, production);
        digests_ok = digests;
        policy_is = ground (arith, h4);
      }

  -- A policy that accepts hardware attestation of a locked device only, from a list of roots.
  pub record IsHardened (P : AttestationPolicy) : Type 0 where
    pub roots : List Bytes
    pub roots_are : P.trusted_root_public_keys ≡ some roots
    pub known : (roots ≡ google_root_keys) ⊎ (roots ≡ [])
    pub boot : P.require_verified_boot ≡ true
    pub level : P.min_security_level ≡ trusted_environment

  policy_or_disabled-IsHardened :
      (config : Config) (r : Result AttestationPolicy)
      → policy_from_config lower google_root_keys env config ≡ r
      → is_production lower google_root_keys env config ≡ true
      → IsHardened (policy_or_disabled lower google_root_keys env r)
  policy_or_disabled-IsHardened config (err e) h p = record {
    roots = [];
    roots_are = refl;
    known = inr refl;
    boot = refl;
    level = refl;
  }
  policy_or_disabled-IsHardened config (ok P) h p =
      let made = policy_from_config-IsMade config P h in
      let off : made.allow_software ≡ false = ground (arith, made.production_ok, p) in
      subst IsHardened (sym made.policy_is) (
        rw off (record {
          roots = google_root_keys;
          roots_are = refl;
          known = inl refl;
          boot = refl;
          level = refl;
        }))

  pub safe_policy_from_config-IsHardened :
      (config : Config)
      → is_production lower google_root_keys env config ≡ true
      → IsHardened (safe_policy_from_config lower google_root_keys env config)
  unfolding safe_policy_from_config
  safe_policy_from_config-IsHardened config p =
      policy_or_disabled-IsHardened config (policy_from_config lower google_root_keys env config)
        refl p

  module _ (C : Crypto) where
    open C use {Cert, Key, public_key, export_spki}

    -- The chain is the parsed one and trusted, the record stands in its leaf and answers the
    -- challenge; its root is one of Google's, and the record says that hardware made the key, on a
    -- locked device with a verified system.
    pub record IsHardwareBacked (P : AttestationPolicy) (now : ℕ) (ders : List Bytes)
        (challenge : Bytes) (a : Attested lower C P) : Type 0 where
      pub chain : List Cert
      pub record_of : KeyDescription
      pub trusted : IsTrusted lower C P now ders challenge a chain record_of
      pub root : Cert
      pub root_is : last lower C P chain ≡ some root
      pub root_key : Key
      pub root_key_is : public_key root ≡ some root_key
      pub root_known : IsOneOf (export_spki root_key) google_root_keys
      pub boot : HasVerifiedBoot lower C P record_of.root_of_trust
      pub attested_by_hardware : trusted_environment ≤ record_of.attestation_security_level
      pub made_by_hardware : trusted_environment ≤ record_of.keymaster_security_level

    root_sound :
        (P : AttestationPolicy) (roots : List Bytes) (r : Option Cert)
        → (roots ≡ google_root_keys) ⊎ (roots ≡ [])
        → HasTrustedRoot lower C P (some roots) r
        → (root : Cert) × (key : Key) × (r ≡ some root)
          × (public_key root ≡ some key)
          × IsOneOf (export_spki key) google_root_keys
    root_sound P roots none known h = absurd h
    root_sound P roots (some root) known h =
        let (key, key_is, among) = key_sound (public_key root) known h in
        (root, key, refl, key_is, among)
      where
        key_sound :
            (k : Option Key)
            → (roots ≡ google_root_keys) ⊎ (roots ≡ [])
            → IsRootKey lower C P roots k
            → (key : Key) × (k ≡ some key) × IsOneOf (export_spki key) google_root_keys
        key_sound none _ h1 = absurd h1
        key_sound (some key) (inl e) h1 = (key, refl, subst (IsOneOf _) e h1)
        key_sound (some key) (inr e) h1 = absurd (subst (IsOneOf _) e h1)

    hardened-IsHardwareBacked :
        (P : AttestationPolicy) (now : ℕ) (ders : List Bytes) (challenge : Bytes)
        (a : Attested lower C P)
        → IsHardened P
        → verify lower C P now ders challenge ≡ ok a
        → IsHardwareBacked P now ders challenge a
    hardened-IsHardwareBacked P now ders challenge a s h =
        let (chain, d, t) = (verify_iff lower C P now ders challenge a).0 h in
        let (root, root_key, root_is, root_key_is, known) =
          root_sound P s.roots (last lower C P chain) s.known (
            subst (λ roots. HasTrustedRoot lower C P roots (last lower C P chain)) s.roots_are
              t.root) in
        record {
          chain = chain;
          record_of = d;
          root = root;
          root_is = root_is;
          root_key = root_key;
          root_key_is = root_key_is;
          root_known = known;
          trusted = t;
          boot = t.good.boot s.boot;
          attested_by_hardware = ground (arith, s.level, t.good.secure, t.good.level_is);
          made_by_hardware = ground (arith, s.level, t.good.secure, t.good.level_is);
        }

    -- In production, whatever else the variables say, a chain that `verify` accepts ends at a root
    -- of Google, is trusted in every other respect too, and the record in the leaf of these
    -- certificates, which answers this challenge, says that hardware made and attested the key, on
    -- a locked device with a verified system.
    pub verify-IsHardwareBacked :
        (config : Config) (now : ℕ) (ders : List Bytes) (challenge : Bytes)
        (a : Attested lower C (safe_policy_from_config lower google_root_keys env config))
        → is_production lower google_root_keys env config ≡ true
        → verify lower C
            (safe_policy_from_config lower google_root_keys env config)
            now
            ders
            challenge
          ≡ ok a
        → IsHardwareBacked
            (safe_policy_from_config lower google_root_keys env config)
            now
            ders
            challenge
            a
    verify-IsHardwareBacked config now ders challenge a p h =
        hardened-IsHardwareBacked _ now ders challenge a
          (safe_policy_from_config-IsHardened config p) h
