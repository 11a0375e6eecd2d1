-- ===== src/Kv/Spec.antt =====
-- What a key-value store promises, as a relation on what can be seen: the value of each key at each
-- time. A store may forget a key when another one is written.
use encryption_gateway.Prelude.{
  ℕ, ◌+◌, ◌≤◌, Text, List, [], ◌∷◌, Option, none, some, Bool, true, false, if◌then◌else◌, ltb, ◌≡◌,
  ◌≢◌, ◌⊎◌,
}

abbrev pub Contents : Type 0
Contents = ℕ → Text → Option Text

pub data Call : Type 0 where
  a_get : ℕ → Text → Call
  a_set : ℕ → Text → Text → Option ℕ → Call
  a_set_if_absent : ℕ → Text → Text → Option ℕ → Call
  a_get_delete : ℕ → Text → Call
  a_delete : Text → Call

pub data Reply : Type 0 where
  found : Option Text → Reply
  done : Reply
  flag : Bool → Reply

-- The value of a key that was written at `now` with a lifetime.
abbrev pub lasting : ℕ → Text → Option ℕ → ℕ → Option Text
lasting now value none t = some value
lasting now value (some ttl) t = if ltb (now + ttl) t then none else some value

-- From `now` on, everything is seen as before.
abbrev pub Keeps : ℕ → Contents → Contents → Type 0
Keeps now c d = (t : ℕ) (j : Text) → now ≤ t → d t j ≡ c t j

-- The key has its value for its lifetime; any other key has the value that it had, or none.
pub record Writes (now : ℕ) (key value : Text) (ttl : Option ℕ) (c d : Contents) : Type 0 where
  pub written : (t : ℕ) → d t key ≡ lasting now value ttl t
  pub others : (t : ℕ) (j : Text) → j ≢ key → now ≤ t → (d t j ≡ none) ⊎ (d t j ≡ c t j)

-- The key has no value any more, and from `now` on the others are seen as before.
pub record Removes (now : ℕ) (key : Text) (c d : Contents) : Type 0 where
  pub removed : (t : ℕ) → d t key ≡ none
  pub others : (t : ℕ) (j : Text) → j ≢ key → now ≤ t → d t j ≡ c t j

abbrev pub Step : Call → Contents → Reply → Contents → Type 0
Step (a_get now key) c r d = (r ≡ found (c now key)) × Keeps now c d
Step (a_set now key value ttl) c r d = (r ≡ done) × Writes now key value ttl c d
Step (a_set_if_absent now key value ttl) c r d =
    ((c now key ≡ none) × (r ≡ flag true) × Writes now key value ttl c d)
    ⊎ ((v : Text) × (c now key ≡ some v) × (r ≡ flag false) × Keeps now c d)
Step (a_get_delete now key) c r d = (r ≡ found (c now key)) × Removes now key c d
Step (a_delete key) c r d =
    (b : Bool) × (r ≡ flag b) × (b ≡ false → (t : ℕ) → c t key ≡ none) × Removes 0 key c d

-- A run: its calls, their replies, and what can be seen before and after it.
abbrev pub Run : List Call → Contents → List Reply → Contents → Type 0
Run [] c rs d = (rs ≡ []) × (d ≡ c)
Run (call ∷ calls) c rs d =
    (r : Reply) × (more : List Reply) × (e : Contents) × (rs ≡ r ∷ more)
    × Step call c r e
    × Run calls e more d
