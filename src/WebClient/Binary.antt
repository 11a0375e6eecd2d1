-- ===== src/WebClient/Binary.antt =====
-- `toB64` walks over the bytes in chunks, and loses none.
use encryption_gateway.Prelude.{
  ℕ, zero, suc, ◌+◌, ◌≤◌, [], ◌∷◌, ◌++◌, length, take, drop, ltb, ◌≡◌, refl, arith, ap, ◌∙◌, sym,
  Bool-cases, inl, inr,
}
use encryption_gateway.Runtime.{Bytes}
use encryption_gateway.WebClient.{binary_from, binary_string}

append-take-drop : (n : ℕ) (b : Bytes) → take n b ++ drop n b ≡ b
append-take-drop zero b = refl
append-take-drop (suc n) [] = refl
append-take-drop (suc n) (x ∷ b) = ap (λ t. x ∷ t) (append-take-drop n b)

drop_nil : (n : ℕ) → drop {A = ℕ} n [] ≡ []
drop_nil zero = refl
drop_nil (suc n) = refl

drop-drop : (i n : ℕ) (b : Bytes) → drop n (drop i b) ≡ drop (i + n) b
drop-drop zero n b = let e : 0 + n ≡ n = omega arith in rw e
drop-drop (suc i) n [] = drop_nil n ∙ sym (drop_nil (suc i + n))
drop-drop (suc i) n (x ∷ b) =
    let e : suc i + n ≡ suc (i + n) = omega arith in rw e (drop-drop i n b)

drop_all : (i : ℕ) (b : Bytes) → length b ≤ i → drop i b ≡ []
drop_all zero [] h = refl
drop_all zero (x ∷ b) h = absurd (omega (arith, h))
drop_all (suc i) [] h = refl
drop_all (suc i) (x ∷ b) h = drop_all i b (omega (arith, h))

-- One round, for any size of a chunk.
round-drop :
    (n i : ℕ) (b rest : Bytes) → rest ≡ drop (i + n) b → take n (drop i b) ++ rest ≡ drop i b
round-drop n i b rest e =
    ap (λ t. take n (drop i b) ++ t) (e ∙ sym (drop-drop i n b)) ∙ append-take-drop n (drop i b)

binary_from-drop : (fuel i : ℕ) (b : Bytes) → length b ≤ i + fuel → binary_from fuel i b ≡ drop i b
unfolding binary_from
binary_from-drop zero i b h = sym (drop_all i b (omega (arith, h)))
binary_from-drop (suc fuel) i b h = elim (Bool-cases (ltb i (length b))) [
  | inl more ↦
      rw more (round-drop 0x8000 i b _ (binary_from-drop fuel (i + 0x8000) b (omega (arith, h))))
  | inr done ↦ rw done (sym (drop_all i b (ground (arith, done))))
]

-- The loop of `toB64` ends within one round for each byte, and the string that it builds has one
-- code unit for each byte, in order.
pub binary_string_lem : (b : Bytes) → binary_string b ≡ b
unfolding binary_string
binary_string_lem b = binary_from-drop (length b) 0 b (omega arith)
