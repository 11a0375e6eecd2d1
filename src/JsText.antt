-- ===== src/JsText.antt =====
-- Methods of JavaScript's strings that the gateway calls, over lists of code units.
pub mod Numerals
pub mod Blank
pub mod Entries
use mathlib.Core.List.{reverse}
use encryption_gateway.Prelude.{
  ℕ, zero, suc, ◌+◌, ◌-◌, ◌*◌, ◌/◌, ◌%◌, Text, List, [], ◌∷◌, ◌++◌, Option, none, some, Bool, true,
  false, ◌&&◌, ◌||◌, if◌then◌else◌, ◌==◌, leb, ltb, all,
}

-- The first part with one more code unit in front.
abbrev pub onto_first : ℕ → List Text → List Text
onto_first c [] = (c ∷ []) ∷ []
onto_first c (t ∷ ts) = (c ∷ t) ∷ ts

-- text.split(separator) by a separator of one code unit
unfoldable pub split_on : ℕ → Text → List Text
split_on sep [] = [] ∷ []
split_on sep (c ∷ s) =
    let rest = split_on sep s in if c == sep then [] ∷ rest else onto_first c rest

-- text.split(separator) by a separator of one code unit, twice
unfoldable pub split_on_pair : ℕ → Text → List Text
split_on_pair sep [] = [] ∷ []
split_on_pair sep (c ∷ []) = (c ∷ []) ∷ []
split_on_pair sep (c ∷ d ∷ s) =
    let after = split_on_pair sep s in
    let later = split_on_pair sep (d ∷ s) in
    if c == sep && d == sep then [] ∷ after else onto_first c later

-- What `trim` and /\s/ take for white space.
unfoldable pub is_space : ℕ → Bool
is_space c =
    (leb 9 c && leb c 13)
    || (c == 32
        || (c == 0xa0
            || (c == 0x1680
                || ((leb 0x2000 c && leb c 0x200a)
                    || (c == 0x2028
                        || (c == 0x2029
                            || (c == 0x202f || (c == 0x205f || (c == 0x3000 || c == 0xfeff)))))))))

unfoldable pub trim_start : Text → Text
unfolding is_space
trim_start [] = []
trim_start (c ∷ s) = let rest = trim_start s in if is_space c then rest else c ∷ s

unfoldable pub trim : Text → Text
unfolding trim_start
trim s = reverse (trim_start (reverse (trim_start s)))

-- text.split(/\s+/)
unfoldable pub split_spaces : Text → List Text
unfolding is_space
split_spaces [] = [] ∷ []
split_spaces (c ∷ s) =
    let rest = split_spaces s in
    if is_space c
    then (elim s [ [] ↦ [] ∷ rest | d ∷ _ ↦ if is_space d then rest else [] ∷ rest ])
    else onto_first c rest

-- Boolean(text)
abbrev pub is_given : Text → Bool
is_given [] = false
is_given (c ∷ s) = true

-- text.startsWith(prefix)
unfoldable pub starts_with : Text → Text → Bool
starts_with s [] = true
starts_with [] (p ∷ ps) = false
starts_with (c ∷ s) (p ∷ ps) = c == p && starts_with s ps

-- text.includes(part)
unfoldable pub includes_text : Text → Text → Bool
unfolding starts_with
includes_text [] part = starts_with [] part
includes_text (c ∷ s) part = starts_with (c ∷ s) part || includes_text s part

-- text.includes of one code unit
abbrev pub includes_unit : ℕ → Text → Bool
includes_unit u [] = false
includes_unit u (c ∷ s) = c == u || includes_unit u s

-- text.indexOf of one code unit
unfoldable pub index_of : ℕ → Text → Option ℕ
index_of u [] = none
index_of u (c ∷ s) =
    let later : Option ℕ = elim (index_of u s) [ none ↦ none | some i ↦ some (suc i) ] in
    if c == u then some 0 else later

-- text.lastIndexOf of one code unit
unfoldable pub last_index_of : ℕ → Text → Option ℕ
last_index_of u [] = none
last_index_of u (c ∷ s) = elim (last_index_of u s) [
  | some i ↦ some (suc i)
  | none ↦ if c == u then some 0 else none
]

-- text.endsWith of one code unit
unfoldable pub ends_with_unit : ℕ → Text → Bool
ends_with_unit u [] = false
ends_with_unit u (c ∷ []) = c == u
ends_with_unit u (c ∷ d ∷ s) = ends_with_unit u (d ∷ s)

-- text.slice(0, -1)
unfoldable pub without_last : Text → Text
without_last [] = []
without_last (c ∷ []) = []
without_last (c ∷ d ∷ s) = c ∷ without_last (d ∷ s)

-- texts.join(separator)
unfoldable pub join : Text → List Text → Text
join sep [] = []
join sep (t ∷ []) = t
join sep (t ∷ u ∷ ts) = t ++ (sep ++ join sep (u ∷ ts))

-- /^\d+$/
unfoldable pub is_digits : Text → Bool
is_digits [] = false
is_digits (c ∷ cs) = all (λ d. leb b'0' d && leb d b'9') (c ∷ cs)

-- The value of a digit of a number to the base 16, and the digit of a value.
unfoldable pub hex_value : ℕ → Option ℕ
hex_value c =
    if leb b'0' c && leb c b'9'
    then some (c - b'0')
    else if leb b'a' c && leb c b'f'
    then some (c - b'a' + 10)
    else if leb b'A' c && leb c b'F'
    then some (c - b'A' + 10)
    else none

unfoldable pub digit_text : ℕ → ℕ
digit_text v = if ltb v 10 then v + b'0' else v - 10 + b'a'

-- parseInt(text, 16) of hexadecimal digits: what stands before the first other unit
unfoldable pub parse_hex_from : ℕ → Text → ℕ
unfolding hex_value
parse_hex_from acc [] = acc
parse_hex_from acc (c ∷ s) = elim (hex_value c) [
  | none ↦ acc
  | some v ↦ parse_hex_from (acc * 16 + v) s
]

abbrev pub parse_hex : Text → ℕ
parse_hex s = parse_hex_from 0 s

-- Number(text) of decimal digits
unfoldable pub parse_decimal_from : ℕ → Text → ℕ
parse_decimal_from acc [] = acc
parse_decimal_from acc (c ∷ s) = parse_decimal_from (acc * 10 + (c - b'0')) s

abbrev pub parse_decimal : Text → ℕ
parse_decimal s = parse_decimal_from 0 s

-- n.toString(base), with fuel for the digits: `digits_fuel` are enough below base ^ digits_fuel.
unfoldable pub number_digits : ℕ → ℕ → ℕ → Text → Text
unfolding digit_text
number_digits zero base n acc = acc
number_digits (suc f) base n acc =
    let more = number_digits f base (n / base) (digit_text (n % base) ∷ acc) in
    if ltb n base then digit_text n ∷ acc else more

abbrev pub to_hex : ℕ → Text
to_hex n = number_digits 4 16 n []

abbrev pub to_decimal : ℕ → Text
to_decimal n = number_digits 20 10 n []
