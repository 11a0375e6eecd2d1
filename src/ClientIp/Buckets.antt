-- ===== src/ClientIp/Buckets.antt =====
-- clientIpKey: what an expanded address is, and that a /64 shares one bucket.
use encryption_gateway.Prelude.{
  ℕ, Text, codes, List, [], ◌∷◌, ◌++◌, map, Option, none, some, true, false, not, any, length, take,
  ◌≡◌, All, arith, refl, ap, Option-cases, inl, inr, sym, ◌∙◌,
}
use encryption_gateway.JsText.{parse_hex, to_hex, split_on_pair, join}
use encryption_gateway.ClientIp.{
  is_group, check_groups, fill_groups, embed_ipv4, expand_ipv6, bucket_of, is_mapped,
}

any-false :
    (groups : List Text)
    → any (λ g. not (is_group g)) groups ≡ false
    → All (λ g. is_group g ≡ true) groups
any-false [] h = tt
any-false (g ∷ gs) h = ground (arith, any-false gs)

check_groups_sound :
    (o : Option (List Text)) (groups : List Text)
    → check_groups o ≡ some groups
    → (length groups ≡ 8) × All (λ g. is_group g ≡ true) groups
unfolding check_groups
check_groups_sound none groups h = cc
check_groups_sound (some gs) groups h = ground (arith, any-false gs)

module _ (lower : Text → Text) (is_ip : Text → ℕ) where
  -- An address that expands has eight groups, each of one to four lower-case hexadecimal digits.
  pub expand_ipv6_groups :
      (address : Text) (groups : List Text)
      → expand_ipv6 lower is_ip address ≡ some groups
      → (length groups ≡ 8) × All (λ g. is_group g ≡ true) groups
  unfolding expand_ipv6
  expand_ipv6_groups address groups h = elim (Option-cases (embed_ipv4 lower is_ip address)) [
    | inl no_value ↦ ground arith
    | inr (value, e) ↦
        check_groups_sound (fill_groups (split_on_pair b':' value)) groups (ground arith)
  ]

  hex_of_groups :
      (gs : List Text) → map (λ g. to_hex (parse_hex g)) gs ≡ map to_hex (map parse_hex gs)
  hex_of_groups [] = refl
  hex_of_groups (g ∷ gs) = ap (λ rest. to_hex (parse_hex g) ∷ rest) (hex_of_groups gs)

  -- Addresses whose first four groups have the same values, however these are written, are
  -- counted in one bucket, if neither is an IPv4-mapped one.
  pub bucket_of_64 :
      (g h : List Text)
      → is_mapped lower is_ip g ≡ false
      → is_mapped lower is_ip h ≡ false
      → map parse_hex (take 4 g) ≡ map parse_hex (take 4 h)
      → bucket_of lower is_ip g ≡ bucket_of lower is_ip h
  unfolding bucket_of
  bucket_of_64 g h p q same =
      rw (p, q)
        (ap (λ ts. join (codes ":") ts ++ codes "::/64")
          (hex_of_groups (take 4 g) ∙ (ap (map to_hex) same ∙ sym (hex_of_groups (take 4 h)))))
