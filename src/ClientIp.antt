-- ===== src/ClientIp.antt =====
-- common/client-ip.ts: the key of a client's bucket. isIP of node:net and the lower case of a
-- string are parameters.
pub mod Buckets
use encryption_gateway.Prelude.{
  ℕ, zero, suc, ◌+◌, ◌-◌, ◌*◌, ◌/◌, ◌%◌, Text, codes, text_eq, List, [], ◌∷◌, ◌++◌, map, Option,
  none, some, Bool, not, ◌&&◌, ◌||◌, if◌then◌else◌, ◌==◌, leb, ltb, all, any, length, take, drop,
  replicate,
}
use encryption_gateway.JsText.{
  split_on, split_on_pair, includes_unit, last_index_of, join, parse_hex, parse_decimal, to_hex,
  to_decimal,
}

-- a[i] of a list of texts, where the code reads within bounds
abbrev pub at : ℕ → List Text → Text
at i [] = []
at zero (t ∷ ts) = t
at (suc i) (t ∷ ts) = at i ts

-- The same of numbers.
abbrev nth : ℕ → List ℕ → ℕ
nth i [] = 0
nth zero (n ∷ ns) = n
nth (suc i) (n ∷ ns) = nth i ns

-- text ? text.split(':') : []
abbrev pub groups_of : Text → List Text
groups_of [] = []
groups_of (c ∷ s) = split_on b':' (c ∷ s)

-- /^[0-9a-f]{1,4}$/
unfoldable pub is_group : Text → Bool
is_group g =
    leb 1 (length g)
    && (leb (length g) 4 && all (λ c. (leb b'0' c && leb c b'9') || (leb b'a' c && leb c b'f')) g)

-- The groups on both sides of `::`, filled up to eight.
unfoldable pub fill_groups : List Text → Option (List Text)
fill_groups [] = none
fill_groups (one ∷ []) = if length (groups_of one) == 8 then some (groups_of one) else none
fill_groups (l ∷ r ∷ []) =
    let left = groups_of l in
    let right = groups_of r in
    if ltb 8 (length left + length right)
    then none
    else some (left ++ (replicate (8 - (length left + length right)) (codes "0") ++ right))
fill_groups (a ∷ b ∷ c ∷ more) = none

unfoldable pub check_groups : Option (List Text) → Option (List Text)
unfolding is_group
check_groups none = none
check_groups (some groups) =
    if not (length groups == 8)
    then none
    else if any (λ g. not (is_group g)) groups
    then none
    else some groups

module _ (lower : Text → Text) (is_ip : Text → ℕ) where
  -- The last part, an IPv4 address, as two groups: ((a << 8) | b) and ((c << 8) | d) of bytes.
  unfoldable pub embed_ipv4 : Text → Option Text
  embed_ipv4 value =
      if not (includes_unit b'.' value) then some value else elim (last_index_of b':' value) [
        | none ↦ none
        | some colon ↦
            let ipv4 = drop (suc colon) value in
            let parts = map parse_decimal (split_on b'.' ipv4) in
            if is_ip ipv4 == 4
            then some (
                take colon value
                ++ (b':'
                    ∷ (to_hex (nth 0 parts * 256 + nth 1 parts)
                        ++ (b':' ∷ to_hex (nth 2 parts * 256 + nth 3 parts)))))
            else none
      ]

  unfoldable pub expand_ipv6 : Text → Option (List Text)
  unfolding embed_ipv4 fill_groups check_groups
  expand_ipv6 address = elim (embed_ipv4 address) [
    | none ↦ none
    | some value ↦ check_groups (fill_groups (split_on_pair b':' value))
  ]

  -- ::ffff:a.b.c.d
  abbrev pub is_mapped : List Text → Bool
  is_mapped groups =
      all (λ g. text_eq g (codes "0")) (take 5 groups) && text_eq (at 5 groups) (codes "ffff")

  -- The bucket of eight groups: that of the IPv4 address, or the /64.
  unfoldable pub bucket_of : List Text → Text
  bucket_of groups =
      if is_mapped groups
      then (let high = parse_hex (at 6 groups) in
          let low = parse_hex (at 7 groups) in
          join (codes ".") (map to_decimal (high / 256 ∷ high % 256 ∷ low / 256 ∷ low % 256 ∷ [])))
      else join (codes ":") (map (λ g. to_hex (parse_hex g)) (take 4 groups)) ++ codes "::/64"

  unfoldable pub key_of_lower : Text → Text
  unfolding expand_ipv6 bucket_of
  key_of_lower ip =
      if not (is_ip ip == 6)
      then ip
      else elim (expand_ipv6 ip) [ none ↦ ip | some groups ↦ bucket_of groups ]

  -- The address without its zone, ip.toLowerCase().split('%')[0].
  unfoldable pub client_ip_key : Option Text → Text
  unfolding key_of_lower
  client_ip_key none = codes "unknown"
  client_ip_key (some []) = codes "unknown"
  client_ip_key (some (c ∷ s)) = key_of_lower (at 0 (split_on b'%' (lower (c ∷ s))))
