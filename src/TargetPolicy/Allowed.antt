-- ===== src/TargetPolicy/Allowed.antt =====
-- TargetPolicy.assertAllowed: the requests that pass are those that a rule matches, and a prefix
-- ends at a segment.
use encryption_gateway.Prelude.{
  ℕ, Text, codes, text_eq, text_eq_iff, List, [], ◌∷◌, ◌++◌, any, Option, true, false, ok, ◌≡◌, ◌≢◌,
  ◌↔◌, ◌⊎◌, inl, inr, refl, arith, Bool-cases,
}
use encryption_gateway.JsText.{starts_with, ends_with_unit}
use encryption_gateway.TargetPolicy.{
  Url, Rule, with_slash, matches_path, has_encoded_slash, matches, assert_allowed,
}

starts_with_sound : (s p : Text) → starts_with s p ≡ true → (rest : Text) × (s ≡ p ++ rest)
unfolding starts_with
starts_with_sound s [] h = (s, refl)
starts_with_sound [] (c ∷ p) h = cc
starts_with_sound (d ∷ s) (c ∷ p) h =
    let (rest, e) = starts_with_sound s p (ground arith) in (rest, ground (arith, e))

starts_with_append : (p rest : Text) → starts_with (p ++ rest) p ≡ true
unfolding starts_with
starts_with_append [] rest = refl
starts_with_append (c ∷ p) rest = ground (arith, starts_with_append p rest)

-- The whole path, or a path below it: what follows the rule's path begins a segment.
abbrev pub IsBelow : Text → Text → Type 0
IsBelow path pathname = (pathname ≡ path) ⊎ ((rest : Text) × (pathname ≡ with_slash path ++ rest))

abbrev pub MatchesPath : Rule → Text → Type 0
MatchesPath rule pathname =
    ((rule.is_prefix ≡ false) × (pathname ≡ rule.path))
    ⊎ ((rule.is_prefix ≡ true) × ((rule.path ≡ codes "/") ⊎ IsBelow rule.path pathname))

matches_path_sound :
    (rule : Rule) (pathname : Text) → matches_path rule pathname ≡ true → MatchesPath rule pathname
unfolding matches_path
matches_path_sound rule pathname h =
    elim (Bool-cases (starts_with pathname (with_slash rule.path))) [
      | inl yes_prefix ↦
          let (rest, e) = starts_with_sound pathname (with_slash rule.path) yes_prefix in
          by_tests rest e
      | inr no_prefix ↦
          ground
            (arith, text_eq_iff pathname rule.path, text_eq_iff rule.path (codes "/"), no_prefix)
    ]
  where
    by_tests : (rest : Text) → pathname ≡ with_slash rule.path ++ rest → MatchesPath rule pathname
    by_tests rest e = elim (Bool-cases rule.is_prefix) [
      | inl p ↦ inr (p, inr (inr (rest, e)))
      | inr p ↦ inl (p, ground (arith, text_eq_iff pathname rule.path))
    ]

matches_path_complete :
    (rule : Rule) (pathname : Text) → MatchesPath rule pathname → matches_path rule pathname ≡ true
unfolding matches_path
matches_path_complete rule pathname (inl (p, e)) = ground (arith, text_eq_iff pathname rule.path)
matches_path_complete rule pathname (inr (p, inl e)) =
    ground (arith, text_eq_iff rule.path (codes "/"))
matches_path_complete rule pathname (inr (p, inr (inl e))) =
    ground (arith, text_eq_iff pathname rule.path)
matches_path_complete rule pathname (inr (p, inr (inr (rest, e)))) =
    let starts : starts_with pathname (with_slash rule.path) ≡ true =
      rw e (starts_with_append (with_slash rule.path) rest) in
    ground (arith, starts)

-- A rule matches a request: the host, the method or `*`, and the path.
pub record Matches (method host pathname : Text) (rule : Rule) : Type 0 where
  pub host_is : rule.host ≡ host
  pub method_is : (rule.method ≡ codes "*") ⊎ (rule.method ≡ method)
  pub path_is : MatchesPath rule pathname

matches_iff :
    (method host pathname : Text) (rule : Rule)
    → (matches method host pathname rule ≡ true) ↔ Matches method host pathname rule
unfolding matches
matches_iff method host pathname rule = (
  λ h. record {
    host_is = ground (arith, text_eq_iff rule.host host);
    method_is = ground (arith, text_eq_iff rule.method (codes "*"), text_eq_iff rule.method method);
    path_is = matches_path_sound rule pathname (ground arith);
  },
  λ m. ground (
    arith,
    m.host_is,
    m.method_is,
    text_eq_iff rule.host host,
    text_eq_iff rule.method (codes "*"),
    text_eq_iff rule.method method,
    matches_path_complete rule pathname m.path_is,
  ),
)

-- Some rule of the list.
abbrev pub Any : (Rule → Type 0) → List Rule → Type 0
Any P [] = ⊥
Any P (r ∷ rs) = P r ⊎ Any P rs

any_sound :
    (method host pathname : Text) (rules : List Rule)
    → any (matches method host pathname) rules ≡ true
    → Any (Matches method host pathname) rules
any_sound method host pathname [] h = cc
any_sound method host pathname (r ∷ rs) h = elim (Bool-cases (matches method host pathname r)) [
  | inl e ↦ inl ((matches_iff method host pathname r).0 e)
  | inr e ↦ inr (any_sound method host pathname rs (ground arith))
]

any_complete :
    (method host pathname : Text) (rules : List Rule)
    → Any (Matches method host pathname) rules
    → any (matches method host pathname) rules ≡ true
any_complete method host pathname [] h = absurd h
any_complete method host pathname (r ∷ rs) (inl m) =
    ground (arith, (matches_iff method host pathname r).1 m)
any_complete method host pathname (r ∷ rs) (inr m) =
    ground (arith, any_complete method host pathname rs m)

module _ (lower upper : Text → Text) (pathname_of : Text → Option Text) where
  -- A request passes exactly when its path holds no encoded slash or backslash and some rule of
  -- the policy has its host, its method or `*`, and its path: for an exact rule the same path, for
  -- a prefix the root, the same path, or one that goes on behind a slash.
  pub assert_allowed_iff :
      (rules : List Rule) (method : Text) (url : Url)
      → (assert_allowed lower upper pathname_of rules method url ≡ ok tt) ↔ (
          (has_encoded_slash url.pathname ≡ false)
          × Any (Matches method (lower url.host) url.pathname) rules)
  unfolding assert_allowed
  assert_allowed_iff rules method url = (
    λ h. (ground arith, any_sound method (lower url.host) url.pathname rules (ground arith)),
    λ (clean, m). ground (arith, clean, any_complete method (lower url.host) url.pathname rules m),
  )

append_slash :
    (p rest : Text) (c : ℕ) → c ≢ b'/' → starts_with (p ++ (c ∷ rest)) (p ++ (b'/' ∷ [])) ≡ false
unfolding starts_with
append_slash [] rest c ne = ground arith
append_slash (d ∷ p) rest c ne = ground (arith, append_slash p rest c ne)

longer_ne : (p rest : Text) (c : ℕ) → text_eq (p ++ (c ∷ rest)) p ≡ false
unfolding text_eq
longer_ne [] rest c = refl
longer_ne (d ∷ p) rest c = ground (arith, longer_ne p rest c)

not_root : (p : Text) → ends_with_unit b'/' p ≡ false → text_eq p (codes "/") ≡ false
unfolding ends_with_unit
not_root p h = elim (Bool-cases (text_eq p (codes "/"))) [
  | inl root ↦ cc (rw ((text_eq_iff p (codes "/")).0 root) at h)
  | inr other ↦ other
]

-- A prefix that ends in no slash, as that of `/admin*`, does not match a path that goes on with
-- the segment, as `/administrator` does.
pub matches_path_boundary :
    (rule : Rule) (c : ℕ) (rest : Text)
    → rule.is_prefix ≡ true
    → ends_with_unit b'/' rule.path ≡ false
    → c ≢ b'/'
    → matches_path rule (rule.path ++ (c ∷ rest)) ≡ false
unfolding matches_path
matches_path_boundary rule c rest p open_end ne = ground (
  arith,
  not_root rule.path open_end,
  longer_ne rule.path rest c,
  append_slash rule.path rest c ne,
)
