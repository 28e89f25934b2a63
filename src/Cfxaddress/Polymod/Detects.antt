-- ===== src/Cfxaddress/Polymod/Detects.antt =====
-- The checksum polynomial tells inputs apart that differ in one place.
use cpp_conflux_sdk.Common.{
  ℕ, ◌+◌, ◌*◌, ◌/◌, ◌%◌, ◌^◌, ◌<◌, ◌≡◌, ◌≢◌, refl, sym, ap, ◌∙◌, [], ◌∷◌, ◌++◌, arith, Bytes, All,
  true, Bool-cases, inl, inr, bit_and, bit_xor, ◌==◌,
}
use cpp_conflux_sdk.Common.Tables.{holds_below, holds_below→at}
use cpp_conflux_sdk.Common.Bits.{bit_xor-cancel, bit_xor-mod, bit_xor_shift, bit_and_mask}
use cpp_conflux_sdk.Cfxaddress.Polymod.{xor_if, reduce, step, polymod_loop, polymod}
use cpp_conflux_sdk.Cfxaddress.Polymod.Bounds.{step-lt}

xor_if-cancel :
    (c0 mask generator a b : ℕ) → xor_if c0 mask generator a ≡ xor_if c0 mask generator b → a ≡ b
unfolding xor_if
xor_if-cancel c0 mask generator a b e = elim (Bool-cases (bit_and c0 mask == 0)) [
  | inl off ↦ rw off at e
  | inr on ↦ bit_xor-cancel a b generator (rw on at e)
]

-- Numbers with the same lowest five bits keep having the same.
SameLow : ℕ → ℕ → Type 0
SameLow a b = a % 2 ^ 5 ≡ b % 2 ^ 5

xor_if-SameLow :
    (c0 mask generator a b : ℕ)
    → SameLow a b
    → SameLow (xor_if c0 mask generator a) (xor_if c0 mask generator b)
unfolding xor_if SameLow
xor_if-SameLow c0 mask generator a b h = elim (Bool-cases (bit_and c0 mask == 0)) [
  | inl off ↦ rw off h
  | inr on ↦ rw on (rw (bit_xor-mod 5 a generator, bit_xor-mod 5 b generator, h) refl)
]

reduce-cancel : (c0 a b : ℕ) → reduce c0 a ≡ reduce c0 b → a ≡ b
unfolding reduce
reduce-cancel c0 a b e = xor_if-cancel c0 _ _ _ _ (
    xor_if-cancel c0 _ _ _ _
      (xor_if-cancel c0 _ _ _ _ (xor_if-cancel c0 _ _ _ _ (xor_if-cancel c0 _ _ _ _ e))))

reduce-SameLow : (c0 a b : ℕ) → SameLow a b → SameLow (reduce c0 a) (reduce c0 b)
unfolding reduce
reduce-SameLow c0 a b h = xor_if-SameLow c0 _ _ _ _ (
    xor_if-SameLow c0 _ _ _ _
      (xor_if-SameLow c0 _ _ _ _ (xor_if-SameLow c0 _ _ _ _ (xor_if-SameLow c0 _ _ _ _ h))))

-- The generators' lowest five bits are the five powers of two, so the lowest five bits of a small
-- number come out combined with the bits that were shifted out.
low_table : holds_below 32 (λ c0. holds_below 32 (λ d. reduce c0 d % 2 ^ 5 == bit_xor c0 d)) ≡ true
unfolding holds_below reduce xor_if
low_table = refl

reduce-low : (c0 d : ℕ) → c0 < 32 → d < 32 → reduce c0 d % 2 ^ 5 ≡ bit_xor c0 d
reduce-low c0 d hc hd =
    ground (arith, holds_below→at 32 _ (holds_below→at 32 _ low_table c0 hc) d hd)

-- A round, for a symbol of five bits: the high bits choose the generators, the low ones are shifted.
step_value :
    (c d : ℕ) → c < 2 ^ 40 → d < 2 ^ 5 → step c d ≡ reduce (c / 2 ^ 35) (c % 2 ^ 35 * 2 ^ 5 + d)
unfolding step
step_value c d hc hd =
    let high : c / 2 ^ 35 % 2 ^ 8 ≡ c / 2 ^ 35 = omega arith in
    let low : bit_and c 0x07ffffffff * 2 ^ 5 % 2 ^ 64 ≡ c % 2 ^ 35 * 2 ^ 5 =
      omega (arith, bit_and_mask 35 c) in
    rw (high, low, bit_xor_shift 5 (c % 2 ^ 35) d hd)

step-low : (c d : ℕ) → c < 2 ^ 40 → d < 2 ^ 5 → step c d % 2 ^ 5 ≡ bit_xor (c / 2 ^ 35) d
unfolding SameLow
step-low c d hc hd =
    ap (λ (t : ℕ). t % 2 ^ 5) (step_value c d hc hd)
    ∙ reduce-SameLow (c / 2 ^ 35) (c % 2 ^ 35 * 2 ^ 5 + d) d (omega arith)
    ∙ reduce-low (c / 2 ^ 35) d (omega arith) hd

-- A round with one symbol tells the states apart, and from one state the symbols.
step-cancel : (c c' d : ℕ) → c < 2 ^ 40 → c' < 2 ^ 40 → d < 2 ^ 5 → step c d ≡ step c' d → c ≡ c'
step-cancel c c' d hc hc' hd e =
    let high : c / 2 ^ 35 ≡ c' / 2 ^ 35 =
      bit_xor-cancel _ _ d
        (sym (step-low c d hc hd) ∙ ap (λ (t : ℕ). t % 2 ^ 5) e ∙ step-low c' d hc' hd) in
    let low : c % 2 ^ 35 * 2 ^ 5 + d ≡ c' % 2 ^ 35 * 2 ^ 5 + d = reduce-cancel (c / 2 ^ 35) _ _ (
      sym (step_value c d hc hd)
      ∙ e
      ∙ step_value c' d hc' hd
      ∙ ap (λ (t : ℕ). reduce t (c' % 2 ^ 35 * 2 ^ 5 + d)) (sym high)) in
    omega arith

step-symbol : (c d d' : ℕ) → c < 2 ^ 40 → d < 2 ^ 5 → d' < 2 ^ 5 → step c d ≡ step c d' → d ≡ d'
step-symbol c d d' hc hd hd' e =
    let low : c % 2 ^ 35 * 2 ^ 5 + d ≡ c % 2 ^ 35 * 2 ^ 5 + d' =
      reduce-cancel (c / 2 ^ 35) _ _ (sym (step_value c d hc hd) ∙ e ∙ step_value c d' hc hd') in
    omega arith

abbrev pub Fives : Bytes → Type 0
Fives = All (λ x. x < 2 ^ 5)

loop-cancel :
    (v : Bytes) (c c' : ℕ)
    → Fives v
    → c < 2 ^ 40
    → c' < 2 ^ 40
    → polymod_loop v c ≡ polymod_loop v c'
    → c ≡ c'
unfolding polymod_loop
loop-cancel [] c c' h hc hc' e = e
loop-cancel (d ∷ v) c c' (hd, h) hc hc' e = step-cancel c c' d hc hc' hd (
    loop-cancel v (step c d) (step c' d) h (step-lt c d (omega arith)) (step-lt c' d (omega arith))
      e)

loop-symbol :
    (front rest : Bytes) (d d' c : ℕ)
    → Fives front
    → Fives rest
    → d < 2 ^ 5
    → d' < 2 ^ 5
    → c < 2 ^ 40
    → polymod_loop (front ++ (d ∷ rest)) c ≡ polymod_loop (front ++ (d' ∷ rest)) c
    → d ≡ d'
unfolding polymod_loop
loop-symbol [] rest d d' c hf hr hd hd' hc e = step-symbol c d d' hc hd hd' (
    loop-cancel rest (step c d) (step c d') hr (step-lt c d (omega arith))
      (step-lt c d' (omega arith)) e)
loop-symbol (x ∷ front) rest d d' c (hx, hf) hr hd hd' hc e =
    loop-symbol front rest d d' (step c x) hf hr hd hd' (step-lt c x (omega arith)) e

-- Two inputs of five-bit symbols that differ in exactly one place have different values.
pub polymod_detects :
    (front rest : Bytes) (d d' : ℕ)
    → Fives front
    → Fives rest
    → d < 2 ^ 5
    → d' < 2 ^ 5
    → d ≢ d'
    → polymod (front ++ (d ∷ rest)) ≢ polymod (front ++ (d' ∷ rest))
unfolding polymod
polymod_detects front rest d d' hf hr hd hd' ne e =
    ne (loop-symbol front rest d d' 1 hf hr hd hd' (omega arith) (bit_xor-cancel _ _ 1 e))
