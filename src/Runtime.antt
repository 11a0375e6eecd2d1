-- ===== src/Runtime.antt =====
-- JSON values, and what the gateway takes from Node.js: JSON and Base64 conversion, dates, case
-- mapping. JavaScript's numbers are a type of the record. Strings are lists of code units, buffers
-- are lists of bytes.
use encryption_gateway.Prelude.{
  Bool, ℕ, Text, text_eq, List, [], ◌∷◌, Option, none, some, if◌then◌else◌, codes, true, false,
}

abbrev pub Bytes : Type 0
Bytes = List ℕ

mutual
  pub data Json (N : Type 0) : Type 0 where
    null : Json N
    bool : Bool → Json N
    num : N → Json N
    str : Text → Json N
    arr : Items N → Json N
    obj : Fields N → Json N

  pub data Items (N : Type 0) : Type 0 where
    nil : Items N
    cons : Json N → Items N → Items N

  pub data Fields (N : Type 0) : Type 0 where
    end : Fields N
    field : Text → Json N → Fields N → Fields N

module _ {N : Type 0} where
  abbrev pub items : Items N → List (Json N)
  items nil = []
  items (cons v vs) = v ∷ items vs

  -- Object.entries(o)
  abbrev pub entries : Fields N → List (Text × Json N)
  entries end = []
  entries (field k v fs) = (k, v) ∷ entries fs

  -- o.key, where `none` is undefined
  unfoldable pub member : Text → Fields N → Option (Json N)
  member key end = none
  member key (field k v fs) = if text_eq k key then some v else member key fs

pub record Runtime : Type 1 where
  pub Num : Type 0
  -- the number of a natural number
  pub number : ℕ → Num
  -- String(number), and String(value) of an array or an object
  pub number_text : Num → Text
  pub object_text : Json Num → Text
  -- JSON.parse, `none` if it throws, and JSON.stringify
  pub parse : Text → Option (Json Num)
  pub stringify : Json Num → Text
  -- buffer.toString('base64') and Buffer.from(text, 'base64')
  pub to_base64 : Bytes → Text
  pub from_base64 : Text → Bytes
  -- Buffer.from(text, 'utf8')
  pub utf8 : Text → Bytes
  -- Buffer.from of undefined or of a value that is no string, `none` if it throws
  pub buffer_of : Option (Json Num) → Option Bytes
  pub Date : Type 0
  -- new Date(milliseconds), new Date(value), date.toISOString()
  pub date_at : ℕ → Date
  pub date_of : Option (Json Num) → Date
  pub iso : Date → Text

-- String(value)
unfoldable pub string_of : (R : Runtime) → Json R.Num → Text
string_of R null = codes "null"
string_of R (bool true) = codes "true"
string_of R (bool false) = codes "false"
string_of R (num n) = R.number_text n
string_of R (str t) = t
string_of R v = R.object_text v

-- value != null
abbrev pub is_given : {N : Type 0} → Option (Json N) → Bool
is_given none = false
is_given (some null) = false
is_given (some _) = true
