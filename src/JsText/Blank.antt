-- ===== src/JsText/Blank.antt =====
-- Texts that are not blank: trim leaves something of them.
use mathlib.Core.List.{reverse, reverse-cons}
use encryption_gateway.Prelude.{ℕ, Text, [], ◌∷◌, ◌++◌, true, false, text_eq, ◌≡◌, ◌≢◌, arith, refl}
use encryption_gateway.JsText.{is_space, trim_start, trim, is_digits}

append_nonempty : (s : Text) (c : ℕ) → s ++ (c ∷ []) ≢ []
append_nonempty [] c = ground arith
append_nonempty (d ∷ s) c = ground arith

reverse_cons_nonempty : (c : ℕ) (s : Text) → reverse (c ∷ s) ≢ []
reverse_cons_nonempty c s e = append_nonempty (reverse s) c (rw (← reverse-cons c s) e)

trim_start-append : (s : Text) (c : ℕ) → is_space c ≡ false → trim_start (s ++ (c ∷ [])) ≢ []
unfolding trim_start
trim_start-append [] c h = ground (arith, h)
trim_start-append (d ∷ s) c h = ground (arith, trim_start-append s c h)

reverse_nonempty : (s : Text) → s ≢ [] → reverse s ≢ []
reverse_nonempty [] h = absurd (h refl)
reverse_nonempty (c ∷ s) h = reverse_cons_nonempty c s

-- What begins with another unit than white space does not trim to nothing.
pub trim_nonempty : (c : ℕ) (s : Text) → is_space c ≡ false → trim (c ∷ s) ≢ []
unfolding trim trim_start
trim_nonempty c s h =
    rw (h, reverse-cons c s) (reverse_nonempty _ (trim_start-append (reverse s) c h))

pub text_eq_nil : (s : Text) → s ≢ [] → text_eq s [] ≡ false
unfolding text_eq
text_eq_nil [] h = absurd (h refl)
text_eq_nil (c ∷ s) h = refl

pub is_digits-trim : (t : Text) → is_digits t ≡ true → text_eq (trim t) [] ≡ false
unfolding is_digits is_space
is_digits-trim [] h = ground arith
is_digits-trim (c ∷ s) h = text_eq_nil (trim (c ∷ s)) (trim_nonempty c s (ground arith))
