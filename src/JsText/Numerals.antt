-- ===== src/JsText/Numerals.antt =====
-- Numbers written in decimal and read again.
use encryption_gateway.Prelude.{
  ℕ, zero, suc, ◌+◌, ◌-◌, ◌*◌, ◌/◌, ◌%◌, ◌^◌, ◌≤◌, ◌<◌, Text, [], ◌∷◌, all, Bool, true, ◌&&◌, leb,
  ltb, ◌≡◌, refl, arith, Bool-cases, inl, inr, ◌∙◌, ap, ltb→lt, length,
}
use native.Mathlib.Nat.{pow-succ'}
use encryption_gateway.JsText.{is_digits, digit_text, parse_decimal_from, number_digits, to_decimal}

below : (f n : ℕ) → n < 10 ^ suc f → n / 10 < 10 ^ f
below f n h = omega (arith, h, pow-succ' 10 f)

-- Reading the last digit gives the number back.
last_digit : (n : ℕ) → n / 10 * 10 + (digit_text (n % 10) - b'0') ≡ n
unfolding digit_text
last_digit n = ground arith

-- With fuel for the digits, what is written is read as the number.
parse_decimal_from-number_digits :
    (f n : ℕ) (acc : Text)
    → n < 10 ^ f
    → parse_decimal_from 0 (number_digits f 10 n acc) ≡ parse_decimal_from n acc
unfolding number_digits parse_decimal_from digit_text
parse_decimal_from-number_digits zero n acc h = let e : n ≡ 0 = omega (arith, h) in rw e
parse_decimal_from-number_digits (suc f) n acc h = elim (Bool-cases (ltb n 10)) [
  | inl small ↦ rw small (ground (arith, ltb→lt n 10 small))
  | inr large ↦ rw large (
      parse_decimal_from-number_digits f (n / 10) (digit_text (n % 10) ∷ acc) (below f n h)
      ∙ ap (λ m. parse_decimal_from m acc) (last_digit n))
]

abbrev pub is_digit : ℕ → Bool
is_digit d = leb b'0' d && leb d b'9'

all-number_digits :
    (f n : ℕ) (acc : Text)
    → all is_digit acc ≡ true
    → all is_digit (number_digits f 10 n acc) ≡ true
unfolding number_digits digit_text
all-number_digits zero n acc h = h
all-number_digits (suc f) n acc h = elim (Bool-cases (ltb n 10)) [
  | inl small ↦ rw small (ground (arith, h))
  | inr large ↦
      rw large (all-number_digits f (n / 10) (digit_text (n % 10) ∷ acc) (ground (arith, h)))
]

-- A number below 10 ^ 20 that is written in decimal is read back, and is written in digits.
pub parse_decimal-to_decimal : (n : ℕ) → n < 10 ^ 20 → parse_decimal_from 0 (to_decimal n) ≡ n
unfolding parse_decimal_from
parse_decimal-to_decimal n h = parse_decimal_from-number_digits 20 n [] h

length-number_digits : (f n : ℕ) (acc : Text) → length acc ≤ length (number_digits f 10 n acc)
unfolding number_digits
length-number_digits zero n acc = omega arith
length-number_digits (suc f) n acc =
    ground (arith, length-number_digits f (n / 10) (digit_text (n % 10) ∷ acc))

is_digits_of : (t : Text) → 1 ≤ length t → all is_digit t ≡ true → is_digits t ≡ true
unfolding is_digits
is_digits_of [] some_digit h = ground arith
is_digits_of (c ∷ t) some_digit h = h

some_digits : (f n : ℕ) → 1 ≤ length (number_digits (suc f) 10 n [])
unfolding number_digits
some_digits f n = ground (arith, length-number_digits f (n / 10) (digit_text (n % 10) ∷ []))

pub is_digits-to_decimal : (n : ℕ) → is_digits (to_decimal n) ≡ true
is_digits-to_decimal n =
    is_digits_of (to_decimal n) (some_digits 19 n) (all-number_digits 20 n [] refl)
