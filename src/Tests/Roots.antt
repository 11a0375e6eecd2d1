-- ===== src/Tests/Roots.antt =====
-- Two PEM blocks, of a certificate with one unit each.
use encryption_gateway.Prelude.{Text, codes, length, [], ◌∷◌, ◌++◌, some, ok, ◌≡◌, refl}
use encryption_gateway.JsText.{join}
use encryption_gateway.Attestation.GoogleRoots.{begin_mark, end_mark, get_google_root_keys}
use encryption_gateway.Attestation.GoogleRoots.Blocks.{IsBlock, get_google_root_keys-join}

abbrev a_block : Text
a_block = begin_mark ++ (65 ∷ ((66 ∷ 10 ∷ []) ++ end_mark))

a_block-IsBlock : IsBlock a_block
a_block-IsBlock = record {
  first = 65;
  body = 66 ∷ 10 ∷ [];
  no_dash = (refl, (refl, tt));
  block_is = refl;
}

get_google_root_keys-join_example :
    get_google_root_keys
      (λ pem. some (length pem ∷ []))
      (join (codes "\n") (a_block ∷ a_block ∷ []))
    ≡ ok ((55 ∷ []) ∷ (55 ∷ []) ∷ [])
get_google_root_keys-join_example =
    get_google_root_keys-join (λ pem. some (length pem ∷ [])) (a_block ∷ a_block ∷ [])
      ((55 ∷ []) ∷ (55 ∷ []) ∷ []) (a_block-IsBlock, (a_block-IsBlock, tt)) refl
