-- ===== src/Attestation/GoogleRoots.antt =====
-- getGoogleRootKeys of attestation/google-roots.ts: the certificates of a PEM text, and their keys.
-- X509Certificate with the export of its key is a parameter, and so is the text.
pub mod Blocks
use encryption_gateway.Prelude.{
  ℕ, zero, suc, ◌-◌, Text, codes, List, [], ◌∷◌, ◌++◌, length, drop, Option, none, some,
  if◌then◌else◌, Result, ok, err, crash,
}
use encryption_gateway.JsText.{starts_with}
use encryption_gateway.Runtime.{Bytes}

abbrev pub begin_mark : Text
begin_mark = codes "-----BEGIN CERTIFICATE-----"

abbrev pub end_mark : Text
end_mark = codes "-----END CERTIFICATE-----"

abbrev onto : ℕ → Option (Text × Text) → Option (Text × Text)
onto c none = none
onto c (some (m, rest)) = some (c ∷ m, rest)

-- [\s\S]*?-----END CERTIFICATE----- at the start of a text: the match, and what stands behind it.
unfoldable pub through_end : Text → Option (Text × Text)
unfolding starts_with
through_end [] = none
through_end (c ∷ s) =
    let later = onto c (through_end s) in
    if starts_with (c ∷ s) end_mark then some (end_mark, drop 25 (c ∷ s)) else later

-- One unit, and then that.
abbrev pub body_of : Text → Option (Text × Text)
body_of [] = none
body_of (c ∷ s) = onto c (through_end s)

abbrev pub behind_mark : Option (Text × Text) → Option (Text × Text)
behind_mark none = none
behind_mark (some (m, rest)) = some (begin_mark ++ m, rest)

-- A match of the whole pattern at the start of a text.
unfoldable pub match_certificate : Text → Option (Text × Text)
match_certificate s = if starts_with s begin_mark then behind_mark (body_of (drop 27 s)) else none

-- All matches, with the number of units that belong to the last one still.
unfoldable pub certificates : ℕ → Text → List Text
certificates skip [] = []
certificates (suc skip) (c ∷ s) = certificates skip s
certificates zero (c ∷ s) = elim (match_certificate (c ∷ s)) [
  | none ↦ certificates zero s
  | some (m, rest) ↦ m ∷ certificates (length m - 1) s
]

module _ (spki_of : Text → Option Bytes) where
  abbrev pub export_keys : List Text → Result (List Bytes)
  export_keys [] = ok []
  export_keys (pem ∷ pems) = elim (spki_of pem) [
    | none ↦ err (crash "Error")
    | some key ↦ elim (export_keys pems) [ err e ↦ err e | ok keys ↦ ok (key ∷ keys) ]
  ]

  unfoldable pub get_google_root_keys : Text → Result (List Bytes)
  get_google_root_keys pem = export_keys (certificates zero pem)
