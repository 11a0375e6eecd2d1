-- ===== src/Attestation/GoogleRoots/Blocks.antt =====
-- The certificates of a text that is made of PEM blocks.
use mathlib.Core.List.{append-nil}
use encryption_gateway.Prelude.{
  subst, ℕ, zero, ◌-◌, ◌==◌, Text, codes, List, [], ◌∷◌, ◌++◌, All, length, map, Option, some,
  false, ok, ◌≡◌, refl, arith, ap, ◌∙◌,
}
use encryption_gateway.JsText.{starts_with, join}
use encryption_gateway.Runtime.{Bytes}
use encryption_gateway.Attestation.GoogleRoots.{
  begin_mark, end_mark, through_end, match_certificate, certificates, export_keys,
  get_google_root_keys,
}

abbrev HasNoDash : Text → Type 0
HasNoDash t = All (λ c. (c == b'-') ≡ false) t

-- A PEM block: Base64 and line breaks between the marks.
pub record IsBlock (block : Text) : Type 0 where
  pub first : ℕ
  pub body : Text
  pub no_dash : HasNoDash body
  pub block_is : block ≡ begin_mark ++ (first ∷ (body ++ end_mark))

through_end-body :
    (body rest : Text)
    → HasNoDash body
    → through_end ((body ++ end_mark) ++ rest) ≡ some (body ++ end_mark, rest)
unfolding through_end starts_with
through_end-body [] rest h = refl
through_end-body (c ∷ body) rest (h, hs) = rw (h, through_end-body body rest hs) refl

certificates-skip : (m rest : Text) → certificates (length m) (m ++ rest) ≡ certificates zero rest
unfolding certificates
certificates-skip [] rest = refl
certificates-skip (c ∷ m) rest = certificates-skip m rest

match_certificate-block :
    (block rest : Text) → IsBlock block → match_certificate (block ++ rest) ≡ some (block, rest)
unfolding match_certificate starts_with
match_certificate-block block rest is =
    rw (is.block_is, through_end-body is.body rest is.no_dash) refl

certificates-match :
    (c : ℕ) (t rest : Text)
    → match_certificate (c ∷ (t ++ rest)) ≡ some (c ∷ t, rest)
    → certificates zero (c ∷ (t ++ rest)) ≡ (c ∷ t) ∷ certificates zero rest
unfolding certificates
certificates-match c t rest h =
    let less : length (c ∷ t) - 1 ≡ length t = omega arith in
    rw (certificates, h, less) (ap (λ us. (c ∷ t) ∷ us) (certificates-skip t rest))

certificates-block :
    (block rest : Text)
    → IsBlock block
    → certificates zero (block ++ rest) ≡ block ∷ certificates zero rest
certificates-block [] rest is = absurd (no_block is.block_is)
  where
    no_block : [] ≡ begin_mark ++ (is.first ∷ (is.body ++ end_mark)) → ⊥
    no_block e = ground (arith, e)
certificates-block (c ∷ t) rest is =
    certificates-match c t rest (match_certificate-block (c ∷ t) rest is)

-- A text that is made of PEM blocks, with line breaks between them, has these blocks as its
-- certificates.
pub certificates-join :
    (blocks : List Text)
    → All IsBlock blocks
    → certificates zero (join (codes "\n") blocks) ≡ blocks
unfolding join certificates match_certificate starts_with
certificates-join [] is = refl
certificates-join (b ∷ []) (i, is) =
    subst (λ t. certificates zero t ≡ b ∷ []) (append-nil b) (certificates-block b [] i)
certificates-join (b ∷ c ∷ bs) (i, is) =
    certificates-block b (b'\n' ∷ join (codes "\n") (c ∷ bs)) i
    ∙ ap (λ us. b ∷ us) (certificates-join (c ∷ bs) is)

module _ (spki_of : Text → Option Bytes) where
  -- The keys of a text that is made of PEM blocks, with line breaks between them, are those of its
  -- blocks, in order, where each of them is a certificate.
  pub get_google_root_keys-join :
      (blocks : List Text) (keys : List Bytes)
      → All IsBlock blocks
      → map spki_of blocks ≡ map (λ key. some key) keys
      → get_google_root_keys spki_of (join (codes "\n") blocks) ≡ ok keys
  unfolding get_google_root_keys
  get_google_root_keys-join blocks keys is h =
      rw (certificates-join blocks is) (exported blocks keys h)
    where
      exported :
          (pems : List Text) (ks : List Bytes)
          → map spki_of pems ≡ map (λ key. some key) ks
          → export_keys spki_of pems ≡ ok ks
      exported [] [] e = refl
      exported [] (k ∷ ks) e = ground (arith, e)
      exported (p ∷ pems) [] e = ground (arith, e)
      exported (p ∷ pems) (k ∷ ks) e =
          let first : spki_of p ≡ some k = ground (arith, e) in
          let others : map spki_of pems ≡ map (λ key. some key) ks = ground (arith, e) in
          rw (export_keys, first, exported pems ks others) refl
