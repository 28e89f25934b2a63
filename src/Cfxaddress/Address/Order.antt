-- ===== src/Cfxaddress/Address/Order.antt =====
-- Addresses as keys: the order of their verbose texts.
use cpp_conflux_sdk.Common.{
  ℕ, ◌≡◌, refl, ap₂, true, false, ◌&&◌, ◌⊎◌, inl, inr, [], ◌∷◌, arith, Bytes, Bool-cases, ltb,
}
use cpp_conflux_sdk.Cfxaddress.Address.{Address}
use cpp_conflux_sdk.Cfxaddress.Address.Methods.{get_verbose_base32_address, text_less, less}

-- A text is below another, is the other, or is above it, and only one of these.
abbrev Placed : Bytes → Bytes → Type 0
Placed s t =
    ((text_less s t ≡ true) × (text_less t s ≡ false))
    ⊎ (((s ≡ t) × (text_less s t ≡ false) × (text_less t s ≡ false))
        ⊎ ((text_less s t ≡ false) × (text_less t s ≡ true)))

text_less-Placed : (s t : Bytes) → Placed s t
unfolding text_less
text_less-Placed [] [] = inr (inl (refl, refl, refl))
text_less-Placed [] (d ∷ t) = inl (refl, refl)
text_less-Placed (c ∷ s) [] = inr (inr (refl, refl))
text_less-Placed (c ∷ s) (d ∷ t) = elim (Bool-cases (ltb c d)) [
  | inl below ↦ inl (ground arith, ground arith)
  | inr not_below ↦ elim (Bool-cases (ltb d c)) [
    | inl above ↦ inr (inr (ground arith, ground arith))
    | inr not_above ↦ elim (text_less-Placed s t) [
      | inl rest ↦ inl (ground (arith, rest), ground (arith, rest))
      | inr (inl (same, below, above)) ↦
          let first : c ≡ d = ground arith in
          inr (
            inl (
              ap₂ (λ (x : ℕ) (y : Bytes). x ∷ y) first same,
              ground (arith, below),
              ground (arith, above),
            ))
      | inr (inr rest) ↦ inr (inr (ground (arith, rest), ground (arith, rest)))
    ]
  ]
]

text_less_trans :
    (s t u : Bytes) → text_less s t ≡ true → text_less t u ≡ true → text_less s u ≡ true
unfolding text_less
text_less_trans s t [] h h' = absurd (ground arith)
text_less_trans s [] (e ∷ u) h h' = absurd (ground arith)
text_less_trans [] (d ∷ t) (e ∷ u) h h' = refl
text_less_trans (c ∷ s) (d ∷ t) (e ∷ u) h h' = elim (Bool-cases (text_less s t && text_less t u)) [
  | inl both ↦ ground (arith, text_less_trans s t u (ground arith) (ground arith))
  | inr other ↦ ground arith
]

-- For two addresses, `operator<` places one below the other, and not the other way round as well, or
-- their verbose texts are the same and it places neither below the other.
pub less_trichotomy :
    (a b : Address)
    → ((less a b ≡ true) × (less b a ≡ false))
      ⊎ (((get_verbose_base32_address a ≡ get_verbose_base32_address b)
            × (less a b ≡ false)
            × (less b a ≡ false))
          ⊎ ((less a b ≡ false) × (less b a ≡ true)))
unfolding less
less_trichotomy a b = text_less-Placed (get_verbose_base32_address a) (get_verbose_base32_address b)

-- `operator<` of addresses is transitive.
pub less_trans : (a b c : Address) → less a b ≡ true → less b c ≡ true → less a c ≡ true
unfolding less
less_trans a b c h h' = text_less_trans _ (get_verbose_base32_address b) _ h h'
