-- ===== src/Config/Checked.antt =====
-- What the readers of variables accept.
use encryption_gateway.Prelude.{
  ℕ, ◌≤◌, ◌^◌, codes, text_eq_iff, some, Bool, true, false, if◌then◌else◌, ok, String, ◌≡◌, ◌≢◌,
  ◌↔◌, ◌⊎◌, inr, arith, ◌-◌,
}
use encryption_gateway.JsText.{is_digits, parse_decimal, to_decimal}
use encryption_gateway.JsText.Numerals.{parse_decimal-to_decimal, is_digits-to_decimal}
use encryption_gateway.JsText.Blank.{is_digits-trim}
use encryption_gateway.Config.{Config, is_unset, text_of, positive_integer, strict_boolean}

-- A variable gives a number exactly when it is not set and this is the fallback, or it is set to
-- decimal digits of this number, which is from 1 to 2 ^ 53 - 1.
pub positive_integer_iff :
    (config : Config) (name : String) (fallback n : ℕ)
    → (positive_integer config name fallback ≡ ok n) ↔ (
        ((is_unset (config name) ≡ true) × (n ≡ fallback))
        ⊎ ((is_unset (config name) ≡ false)
            × (is_digits (text_of (config name)) ≡ true)
            × (parse_decimal (text_of (config name)) ≡ n)
            × (1 ≤ n)
            × (n ≤ 2 ^ 53 - 1)))
unfolding positive_integer
positive_integer_iff config name fallback n = ground arith

-- A variable that is set to the decimal form of a number from 1 to 2 ^ 53 - 1 is read as this
-- number.
pub positive_integer-to_decimal :
    (config : Config) (name : String) (fallback n : ℕ)
    → config name ≡ some (to_decimal n)
    → 1 ≤ n
    → n ≤ 2 ^ 53 - 1
    → positive_integer config name fallback ≡ ok n
unfolding is_unset
positive_integer-to_decimal config name fallback n set low high =
    let digits = is_digits-to_decimal n in
    (positive_integer_iff config name fallback n).1 (
      inr (
        rw set (is_digits-trim (to_decimal n) digits),
        rw set digits,
        rw set (parse_decimal-to_decimal n (omega (arith, high))),
        low,
        high,
      ))

true_ne_false : codes "true" ≢ codes "false"
true_ne_false = ground arith

-- A switch is on exactly when its variable is `true`, or is not set and on by default.
pub strict_boolean_iff :
    (config : Config) (name : String) (fallback b : Bool)
    → (strict_boolean config name fallback ≡ ok b) ↔ (
        ((is_unset (config name) ≡ true) × (b ≡ fallback))
        ⊎ ((is_unset (config name) ≡ false)
            × (text_of (config name) ≡ (if b then codes "true" else codes "false"))))
unfolding strict_boolean
strict_boolean_iff config name fallback b = ground (
  arith,
  text_eq_iff (text_of (config name)) (codes "true"),
  text_eq_iff (text_of (config name)) (codes "false"),
  true_ne_false,
)

pub positive_integer-ge_one :
    (config : Config) (name : String) (fallback n : ℕ)
    → 1 ≤ fallback
    → positive_integer config name fallback ≡ ok n
    → 1 ≤ n
positive_integer-ge_one config name fallback n low h =
    ground (arith, (positive_integer_iff config name fallback n).0 h)
