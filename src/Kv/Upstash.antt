-- ===== src/Kv/Upstash.antt =====
-- The class UpstashKvStore of attestation/kv.store.ts. The service behind its URL is a parameter,
-- with a state of its own; a request that fails or times out may have reached it. The token, the
-- time limit of a request and the log are left out. A lifetime that is Infinity or undefined is
-- `none`.
pub mod SingleUse
pub mod Durable
use encryption_gateway.Prelude.{
  ℕ, Text, codes, text_eq, List, [], ◌∷◌, ◌++◌, Option, none, some, Bool, true, false,
  if◌then◌else◌, leb, Result, ok, err, crash,
}
use encryption_gateway.Exec.{Exec, pure, ◌>>=◌, ◌>>◌}
use encryption_gateway.JsText.{to_decimal}
use encryption_gateway.Runtime.{Json, null, bool, num, str, obj, member}
use encryption_gateway.Kv.Port.{KvStore}

-- What fetch and response.json() give: nothing, if one of them throws, a status that is not ok, or
-- a body.
pub data Answer (N : Type 0) : Type 0 where
  throws : Answer N
  status : ℕ → Answer N
  body : Json N → Answer N

pub record Service (N : Type 0) : Type 1 where
  pub State : Type 0
  pub respond : ℕ → List Text → State → Answer N × State
  -- Boolean(n), and value > 0
  pub is_true_number : N → Bool
  pub is_positive : Option (Json N) → Bool

module _ {N : Type 0} (service : Service N) where
  open service use {State, respond, is_true_number, is_positive}

  -- Boolean(value)
  abbrev pub is_true : Option (Json N) → Bool
  is_true none = false
  is_true (some null) = false
  is_true (some (bool b)) = b
  is_true (some (num n)) = is_true_number n
  is_true (some (str [])) = false
  is_true (some _) = true

  -- The result of a body without an error; a property of null throws.
  unfoldable pub read_body : Json N → Result (Option (Json N))
  read_body null = err (crash "TypeError")
  read_body (obj fs) =
      if is_true (member (codes "error") fs)
      then err (crash "KV command failed")
      else ok (member (codes "result") fs)
  read_body _ = ok none

  unfoldable pub read_answer : Answer N → Result (Option (Json N))
  unfolding read_body
  read_answer throws = err (crash "fetch failed")
  read_answer (status code) = err (crash "KV command failed with HTTP status")
  read_answer (body v) = read_body v

  unfoldable pub command : ℕ → List Text → Exec State (Option (Json N))
  command now words s = let (answer, after) = respond now words s in (read_answer answer, after)

  -- 'PX' and Math.max(1, Math.round(ttlMs))
  abbrev pub expiry_words : Option ℕ → List Text
  expiry_words none = []
  expiry_words (some ttl) = codes "PX" ∷ to_decimal (if leb ttl 1 then 1 else ttl) ∷ []

  -- The result of GET and GETDEL, a string or null.
  abbrev pub text_of : Option (Json N) → Option Text
  text_of (some (str t)) = some t
  text_of _ = none

  -- result === 'OK'
  abbrev pub is_ok : Option (Json N) → Bool
  is_ok (some (str t)) = text_eq t (codes "OK")
  is_ok _ = false

  unfoldable pub get : ℕ → Text → Exec State (Option Text)
  get now key = do result ← command now (codes "GET" ∷ key ∷ []); pure (text_of result)

  unfoldable pub set : ℕ → Text → Text → Option ℕ → Exec State (Unit {0})
  set now key value ttl = do
    result ← command now (codes "SET" ∷ key ∷ value ∷ expiry_words ttl)
    pure tt

  unfoldable pub set_if_absent : ℕ → Text → Text → Option ℕ → Exec State Bool
  set_if_absent now key value ttl = do
    result ← command now (codes "SET" ∷ key ∷ value ∷ (expiry_words ttl ++ (codes "NX" ∷ [])))
    pure (is_ok result)

  unfoldable pub get_delete : ℕ → Text → Exec State (Option Text)
  get_delete now key = do result ← command now (codes "GETDEL" ∷ key ∷ []); pure (text_of result)

  unfoldable pub delete : ℕ → Text → Exec State Bool
  delete now key = do result ← command now (codes "DEL" ∷ key ∷ []); pure (is_positive result)

  -- UpstashKvStore implements KvStore.
  abbrev pub upstash_port : KvStore
  upstash_port = record {
    State = State;
    get = get;
    set = set;
    set_if_absent = set_if_absent;
    get_delete = get_delete;
    delete = delete;
  }
