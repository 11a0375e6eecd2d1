-- ===== src/Config.antt =====
-- common/config.ts: the variables that the gateway is configured with. ConfigService is a function
-- from names to values, `none` for a variable that is not set. An Error at startup is `crash`, less
-- the variable's name and value in its message.
pub mod Checked
use encryption_gateway.Prelude.{
  ℕ, ◌==◌, Text, codes, text_eq, List, [], ◌∷◌, Option, none, some, Bool, true, false, not, ◌&&◌,
  ◌||◌, if◌then◌else◌, leb, Result, ok, err, crash, String,
}
use encryption_gateway.JsText.{trim, is_digits, parse_decimal}

abbrev pub Config : Type 0
Config = String → Option Text

-- raw === undefined || raw.trim() === ''
unfoldable pub is_unset : Option Text → Bool
is_unset none = true
is_unset (some raw) = text_eq (trim raw) []

abbrev pub text_of : Option Text → Text
text_of none = []
text_of (some raw) = raw

-- Number.MAX_SAFE_INTEGER
abbrev pub max_safe_integer : ℕ
max_safe_integer = 9007199254740991

-- On digits Number is their value, rounded beyond the safe integers to a number that is not safe
-- either.
unfoldable pub positive_integer : Config → String → ℕ → Result ℕ
positive_integer config name fallback =
    let raw = text_of (config name) in
    if is_unset (config name)
    then ok fallback
    else if not (is_digits raw)
        || (not (leb (parse_decimal raw) max_safe_integer) || parse_decimal raw == 0)
    then err (crash "must be a positive safe integer")
    else ok (parse_decimal raw)

unfoldable pub strict_boolean : Config → String → Bool → Result Bool
strict_boolean config name fallback =
    let raw = text_of (config name) in
    if is_unset (config name)
    then ok fallback
    else if not (text_eq raw (codes "true")) && not (text_eq raw (codes "false"))
    then err (crash "must be true or false")
    else ok (text_eq raw (codes "true"))

-- allowed.includes(raw)
abbrev pub includes : List Text → Text → Bool
includes [] t = false
includes (x ∷ xs) t = text_eq x t || includes xs t

unfoldable pub enum_value : Config → String → List Text → Text → Result Text
enum_value config name allowed fallback =
    let raw = text_of (config name) in
    if is_unset (config name)
    then ok fallback
    else if not (includes allowed raw)
    then err (crash "must be one of the allowed values")
    else ok raw
