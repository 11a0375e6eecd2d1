-- ===== src/Attestation/Crypto.antt =====
-- What attestation/ takes from node:crypto and the @peculiar packages: keys, X.509 certificates
-- and the ASN.1 structures of Android's key attestation. `none` means that the call
-- throws; that exporting a public key throws is left out.
use encryption_gateway.Prelude.{ℕ, Text, Bool, List, Option}
use encryption_gateway.Runtime.{Bytes}

-- The members of @peculiar/asn1-android's enum SecurityLevel.
abbrev pub software : ℕ
software = 0

abbrev pub trusted_environment : ℕ
trusted_environment = 1

-- VerifiedBootState.verified
abbrev pub verified : ℕ
verified = 0

pub record RootOfTrust : Type 0 where
  pub device_locked : Bool
  pub verified_boot_state : ℕ

pub record KeyDescription : Type 0 where
  pub attestation_challenge : Bytes
  pub attestation_security_level : ℕ
  pub keymaster_security_level : ℕ
  pub root_of_trust : Option RootOfTrust
  pub tee_application_id : Option Bytes
  pub software_application_id : Option Bytes

pub record ApplicationId : Type 0 where
  pub package_names : List Bytes
  pub signature_digests : List Bytes

pub record Crypto : Type 1 where
  pub Key : Type 0
  pub Cert : Type 0
  -- publicKey.export({ type: 'spki', format: 'der' }) and createPublicKey of that form
  pub export_spki : Key → Bytes
  pub create_public_key : Bytes → Option Key
  -- crypto.verify('sha256', data, key, signature)
  pub verify : Bytes → Key → Bytes → Option Bool
  -- new X509Certificate(der) and its properties
  pub certificate : Bytes → Option Cert
  pub public_key : Cert → Option Key
  pub is_signed_by : Cert → Key → Option Bool
  pub serial_number : Cert → Text
  -- milliseconds of validFrom and validTo, `none` for a date that is not valid
  pub valid_from : Cert → Option ℕ
  pub valid_to : Cert → Option ℕ
  -- AsnConvert.parse(der, Certificate).tbsCertificate.extensions, as ids and values
  pub extensions : Bytes → Option (Option (List (Text × Bytes)))
  pub key_description : Bytes → Option KeyDescription
  pub application_id : Bytes → Option ApplicationId
  -- id_ce_keyDescription
  pub key_description_id : Text
  -- buffer.toString('utf8') and buffer.toString('hex')
  pub utf8_text : Bytes → Text
  pub hex : Bytes → Text
