-- ===== src/JsText/Entries.antt =====
-- Lists of texts in one text, with commas between them.
use mathlib.Core.List.{reverse, reverse-cons, reverse-reverse}
use encryption_gateway.Prelude.{
  ℕ, Text, codes, List, [], ◌∷◌, ◌++◌, All, append-All, map, filter, true, false, ◌==◌, ◌≡◌, ◌≢◌,
  refl, ◌∙◌, ap,
}
use encryption_gateway.JsText.{
  is_space, trim_start, trim, is_given, starts_with, includes_text, split_on, join,
}

-- Neither white space nor a dash.
pub record IsClearUnit (c : ℕ) : Type 0 where
  pub no_space : is_space c ≡ false
  pub no_dash : (c == b'-') ≡ false

abbrev pub IsClear : Text → Type 0
IsClear t = All IsClearUnit t

trim_start-IsClear : (t : Text) → IsClear t → trim_start t ≡ t
unfolding trim_start
trim_start-IsClear [] p = refl
trim_start-IsClear (c ∷ t) (p, ps) = rw p.no_space refl

reverse-IsClear : (t : Text) → IsClear t → IsClear (reverse t)
reverse-IsClear [] p = tt
reverse-IsClear (c ∷ t) (p, ps) =
    rw (reverse-cons c t)
      (append-All IsClearUnit (reverse t) (c ∷ []) (reverse-IsClear t ps) (p, tt))

pub trim-IsClear : (t : Text) → IsClear t → trim t ≡ t
unfolding trim
trim-IsClear t p =
    rw (trim_start-IsClear t p, trim_start-IsClear (reverse t) (reverse-IsClear t p))
      (reverse-reverse t)

pub includes_text-IsClear : (t s : Text) → IsClear t → includes_text t (b'-' ∷ s) ≡ false
unfolding includes_text starts_with
includes_text-IsClear [] s p = refl
includes_text-IsClear (c ∷ t) s (p, ps) = rw (p.no_dash, includes_text-IsClear t s ps) refl

-- Such units without commas.
abbrev pub IsPlainUnit : ℕ → Type 0
IsPlainUnit c = IsClearUnit c × ((c == b',') ≡ false)

abbrev pub IsPlain : Text → Type 0
IsPlain t = All IsPlainUnit t

plain-IsClear : (t : Text) → IsPlain t → IsClear t
plain-IsClear [] p = tt
plain-IsClear (c ∷ t) (p, ps) = (p.0, plain-IsClear t ps)

split_on-IsPlain : (t : Text) → IsPlain t → split_on b',' t ≡ t ∷ []
unfolding split_on
split_on-IsPlain [] p = refl
split_on-IsPlain (c ∷ t) (p, ps) = rw (p.1, split_on-IsPlain t ps) refl

split_on-comma :
    (t rest : Text) → IsPlain t → split_on b',' (t ++ (b',' ∷ rest)) ≡ t ∷ split_on b',' rest
unfolding split_on
split_on-comma [] rest p = refl
split_on-comma (c ∷ t) rest (p, ps) = rw (p.1, split_on-comma t rest ps) refl

-- A text that is not empty, of such units.
abbrev pub IsEntry : Text → Type 0
IsEntry t = (t ≢ []) × IsPlain t

pub join-IsClear : (ts : List Text) → All IsEntry ts → IsClear (join (codes ",") ts)
unfolding join is_space
join-IsClear [] e = tt
join-IsClear (t ∷ []) (e, es) = plain-IsClear t e.1
join-IsClear (t ∷ u ∷ ts) (e, es) =
    append-All IsClearUnit t (b',' ∷ join (codes ",") (u ∷ ts)) (plain-IsClear t e.1)
      (record { no_space = refl; no_dash = refl }, join-IsClear (u ∷ ts) es)

pub entry-trim : (t : Text) → IsEntry t → trim t ≡ t
entry-trim t e = trim-IsClear t (plain-IsClear t e.1)

pub filter-entries : (ts : List Text) → All IsEntry ts → filter is_given (map trim ts) ≡ ts
filter-entries [] e = refl
filter-entries ([] ∷ ts) (e, es) = absurd (e.0 refl)
filter-entries ((c ∷ t) ∷ ts) (e, es) =
    rw (entry-trim (c ∷ t) e) (ap (λ us. (c ∷ t) ∷ us) (filter-entries ts es))

pub split_on-entries :
    (t : Text) (ts : List Text)
    → All IsEntry (t ∷ ts)
    → split_on b',' (join (codes ",") (t ∷ ts)) ≡ t ∷ ts
unfolding join
split_on-entries t [] (e, es) = split_on-IsPlain t e.1
split_on-entries t (u ∷ ts) (e, es) =
    split_on-comma t (join (codes ",") (u ∷ ts)) e.1 ∙ ap (λ us. t ∷ us) (split_on-entries u ts es)

pub join_nonempty :
    (t : Text) (ts : List Text) → t ≢ [] → is_given (join (codes ",") (t ∷ ts)) ≡ true
unfolding join
join_nonempty [] ts h = absurd (h refl)
join_nonempty (c ∷ t) [] h = refl
join_nonempty (c ∷ t) (u ∷ ts) h = refl
