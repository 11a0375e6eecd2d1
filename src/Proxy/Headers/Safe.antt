-- ===== src/Proxy/Headers/Safe.antt =====
-- What the headers that the gateway forwards can hold.
use encryption_gateway.Prelude.{
  Text, codes, text_eq, text_eq_iff, List, [], ◌∷◌, All, Option, true, false, ◌&&◌, ok, ◌≡◌, arith,
  >>=-eq-ok, Bool-cases, inl, inr, subst, ◌++◌, map, ◌≢◌,
}
use encryption_gateway.JsText.{starts_with, split_on, trim}
use encryption_gateway.OrderedMap
use encryption_gateway.OrderedMap.{OrderedMap}
use encryption_gateway.Runtime.{Json, Runtime, string_of}
use encryption_gateway.TargetPolicy.{is_one_of}
use encryption_gateway.Proxy.Headers.{
  blocked_headers, is_header_name, is_header_value, header_entries, all_pairs, connection_headers,
  is_blocked, add_header, add_pairs, normalize_headers,
}

-- A predicate of all entries of a map holds on after a set.
set_All {ℓ} :
    {V : Type ℓ} (P : Text × V → Type ℓ) (k : Text) (v : V) (m : OrderedMap V)
    → P (k, v)
    → All P m
    → All P (OrderedMap.set k v m)
unfolding OrderedMap.set
set_All P k v [] p h = (p, h)
set_All P k v ((j, w) ∷ m) p (q, h) = elim (Bool-cases (text_eq j k)) [
  | inl same ↦ rw (same, (text_eq_iff j k).0 same) (p, h)
  | inr other ↦ rw other (q, set_All P k v m p h)
]

module _ (R : Runtime) (lower : Text → Text) where
  -- A header that may be forwarded.
  pub record IsForwardable (listed : List Text) (e : Text × Text) : Type 0 where
    pub name_ok : is_header_name e.0 ≡ true
    pub value_ok : is_header_value e.1 ≡ true
    pub not_blocked : is_one_of (lower e.0) blocked_headers ≡ false
    pub not_forwarded : starts_with (lower e.0) (codes "x-forwarded-") ≡ false
    pub not_listed : is_one_of (lower e.0) listed ≡ false

  add_header-IsForwardable :
      (listed : List Text) (name text : Text) (headers out : OrderedMap Text)
      → add_header R lower listed name text headers ≡ ok out
      → All (IsForwardable listed) headers
      → All (IsForwardable listed) out
  unfolding add_header is_blocked
  add_header-IsForwardable listed name text headers out h safe =
      elim (Bool-cases (is_header_name name && is_header_value text)) [
        | inl valid ↦ elim (Bool-cases (is_blocked R lower listed (lower name))) [
          | inl blocked ↦
              subst (All (IsForwardable listed)) (ground (arith, valid, blocked, h)) safe
          | inr free ↦
              subst (All (IsForwardable listed)) (set_eq valid free)
                (set_All (IsForwardable listed) name text headers (forwardable valid free) safe)
        ]
        | inr invalid ↦ ground (arith, invalid, h)
      ]
    where
      set_eq :
          is_header_name name && is_header_value text ≡ true
          → is_blocked R lower listed (lower name) ≡ false
          → OrderedMap.set name text headers ≡ out
      set_eq valid free = ground (arith, valid, free, h)

      forwardable :
          is_header_name name && is_header_value text ≡ true
          → is_blocked R lower listed (lower name) ≡ false
          → IsForwardable listed (name, text)
      forwardable valid free = record {
        name_ok = ground (arith, valid);
        value_ok = ground (arith, valid);
        not_blocked = ground (arith, free);
        not_forwarded = ground (arith, free);
        not_listed = ground (arith, free);
      }

  add_pairs-IsForwardable :
      (listed : List Text) (pairs : List (Text × Json R.Num)) (headers out : OrderedMap Text)
      → add_pairs R lower listed pairs headers ≡ ok out
      → All (IsForwardable listed) headers
      → All (IsForwardable listed) out
  unfolding add_pairs
  add_pairs-IsForwardable listed [] headers out h safe =
      subst (All (IsForwardable listed)) (ground (arith, h)) safe
  add_pairs-IsForwardable listed ((name, value) ∷ rest) headers out h safe =
      let (added, e, then_) =
        >>=-eq-ok (add_header R lower listed name (string_of R value) headers) _ h in
      add_pairs-IsForwardable listed rest added out then_
        (add_header-IsForwardable listed name (string_of R value) headers added e safe)

  -- Each header that is forwarded has the form of a header name and of a header value, and its
  -- name is not blocked, does not start with `x-forwarded-` and is not among the names that
  -- connection_headers lists.
  pub normalize_headers-IsForwardable :
      (header : Option (Json R.Num)) (out : OrderedMap Text)
      → normalize_headers R lower header ≡ ok out
      → All
          (IsForwardable
            (connection_headers R lower (all_pairs R lower (header_entries R lower header))))
          out
  unfolding normalize_headers
  normalize_headers-IsForwardable header out h =
      add_pairs-IsForwardable _ (all_pairs R lower (header_entries R lower header)) [] out h tt

  -- Where the pair is a Connection header, none of the parts between the commas of its value is
  -- the name.
  abbrev pub IsUnlisted : Text → Text × Json R.Num → Type 0
  IsUnlisted name (key, value) =
      lower key ≡ codes "connection"
      → All (λ token. lower (trim token) ≢ name) (split_on b',' (string_of R value))

  tokens_apart :
      (name : Text) (tokens more : List Text)
      → is_one_of name (map (λ t. lower (trim t)) tokens ++ more) ≡ false
      → All (λ token. lower (trim token) ≢ name) tokens × (is_one_of name more ≡ false)
  tokens_apart name [] more h = (tt, h)
  tokens_apart name (token ∷ tokens) more h =
      let (others, rest) = tokens_apart name tokens more (ground (arith, h)) in
      ((ground (arith, h, text_eq_iff (lower (trim token)) name), others), rest)

  listed_nowhere :
      (name : Text) (pairs : List (Text × Json R.Num))
      → is_one_of name (connection_headers R lower pairs) ≡ false
      → All (IsUnlisted name) pairs
  unfolding connection_headers
  listed_nowhere name [] h = tt
  listed_nowhere name ((key, value) ∷ rest) h =
      elim (Bool-cases (text_eq (lower key) (codes "connection"))) [
        | inl connection ↦
            let (apart, more) =
              tokens_apart name (split_on b',' (string_of R value))
                (connection_headers R lower rest) (rw connection at h) in
            (λ e. apart, listed_nowhere name rest more)
        | inr other ↦ (
          λ e. absurd (ground (arith, other, e, text_eq_iff (lower key) (codes "connection"))),
          listed_nowhere name rest (rw other at h),
        )
      ]

  -- No header that is forwarded is named by a Connection header among the pairs.
  pub forwardable-IsUnlisted :
      (pairs : List (Text × Json R.Num)) (headers : OrderedMap Text)
      → All (IsForwardable (connection_headers R lower pairs)) headers
      → All (λ e. All (IsUnlisted (lower e.0)) pairs) headers
  forwardable-IsUnlisted pairs [] h = tt
  forwardable-IsUnlisted pairs (e ∷ headers) (f, rest) =
      (listed_nowhere (lower e.0) pairs f.not_listed, forwardable-IsUnlisted pairs headers rest)
