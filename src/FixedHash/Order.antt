-- ===== src/FixedHash/Order.antt =====
-- The order and the increment of hashes are those of the numbers that they stand for.
use mathlib.Core.List.{reverse, reverse-cons, reverse-reverse}
use native.Mathlib.Nat.{mod-eq_of_lt, mod_self}
use cpp_conflux_sdk.Common.{
  ℕ, suc, ◌+◌, ◌*◌, ◌%◌, ◌^◌, ◌≤◌, ◌<◌, ◌≡◌, refl, sym, ap, ◌∙◌, [], ◌∷◌, arith, Bytes, length,
  length-append, All, All-append, IsByte, Bool-cases, inl, inr, ltb, ◌==◌, if◌then◌else◌,
}
use cpp_conflux_sdk.Common.Bits.{pow_add}
use cpp_conflux_sdk.CommonData.Endian.{from_big_endian_loop, from_big_endian}
use cpp_conflux_sdk.CommonData.Endian.RoundTrip.{loop-append, next_held}
use cpp_conflux_sdk.FixedHash.{less, carry, increment}

module _ (w : ℕ) where
  -- A number that was smaller so far stays smaller.
  loop-lt :
      (n r r' : ℕ) (h c : Bytes)
      → All IsByte h
      → All IsByte c
      → length h ≡ length c
      → r < 2 ^ (8 * n)
      → r' < 2 ^ (8 * n)
      → 8 * (n + length h) ≤ w
      → r < r'
      → from_big_endian_loop w h r < from_big_endian_loop w c r'
  unfolding from_big_endian_loop
  loop-lt n r r' [] [] hh hc size small small' fits lt = lt
  loop-lt n r r' [] (y ∷ c) hh hc size small small' fits lt = absurd (omega arith)
  loop-lt n r r' (x ∷ h) [] hh hc size small small' fits lt = absurd (omega arith)
  loop-lt n r r' (x ∷ h) (y ∷ c) (hx, hh) (hy, hc) size small small' fits lt =
      let (below, value) = next_held w n r x hx small (omega arith) in
      let (below', value') = next_held w n r' y hy small' (omega arith) in
      rw (value, value')
        (loop-lt (suc n) (r * 2 ^ 8 + x) (r' * 2 ^ 8 + y) h c hh hc (omega arith) below below'
          (omega arith) (omega arith))

  loop-less :
      (n r : ℕ) (h c : Bytes)
      → All IsByte h
      → All IsByte c
      → length h ≡ length c
      → r < 2 ^ (8 * n)
      → 8 * (n + length h) ≤ w
      → less h c ≡ ltb (from_big_endian_loop w h r) (from_big_endian_loop w c r)
  unfolding from_big_endian_loop less
  loop-less n r [] [] hh hc size small fits = ground arith
  loop-less n r [] (y ∷ c) hh hc size small fits = absurd (omega arith)
  loop-less n r (x ∷ h) [] hh hc size small fits = absurd (omega arith)
  loop-less n r (x ∷ h) (y ∷ c) (hx, hh) (hy, hc) size small fits =
      let (below, value) = next_held w n r x hx small (omega arith) in
      let (below', value') = next_held w n r y hy small (omega arith) in
      rw (value, value')
        (elim (Bool-cases (ltb x y)) [
          | inl lt ↦
              let smaller =
                loop-lt (suc n) (r * 2 ^ 8 + x) (r * 2 ^ 8 + y) h c hh hc (omega arith) below below'
                  (omega arith) (ground arith) in
              ground (arith, smaller)
          | inr ge ↦ elim (Bool-cases (ltb y x)) [
            | inl gt ↦
                let greater =
                  loop-lt (suc n) (r * 2 ^ 8 + y) (r * 2 ^ 8 + x) c h hc hh (omega arith) below'
                    below (omega arith) (ground arith) in
                ground (arith, greater)
            | inr le ↦
                let same : y ≡ x = ground arith in
                rw (ge, le, same)
                  (loop-less (suc n) (r * 2 ^ 8 + x) h c hh hc (omega arith) below (omega arith))
          ]
        ])

-- `operator<` of two hashes of one size is the order of their big-endian numbers.
pub less-from_big_endian :
    (h c : Bytes)
    → All IsByte h
    → All IsByte c
    → length h ≡ length c
    → less h c ≡ ltb (from_big_endian (8 * length h) h) (from_big_endian (8 * length h) c)
unfolding from_big_endian
less-from_big_endian h c hh hc size =
    loop-less (8 * length h) 0 0 h c hh hc size (omega arith) (omega arith)

-- The number of bytes that stand with the lowest first.
low_number : Bytes → ℕ
low_number [] = 0
low_number (x ∷ h) = low_number h * 2 ^ 8 + x

low_number-lt : (h : Bytes) → All IsByte h → low_number h < 2 ^ (8 * length h)
unfolding low_number
low_number-lt [] hs = omega arith
low_number-lt (x ∷ h) (hx, hs) =
    let bits : 8 * suc (length h) ≡ 8 * length h + 8 = omega arith in
    rw bits (omega (arith, pow_add (8 * length h) 8, low_number-lt h hs))

loop-reverse :
    (w : ℕ) (h : Bytes)
    → All IsByte h
    → 8 * length h ≤ w
    → from_big_endian_loop w (reverse h) 0 ≡ low_number h
unfolding low_number
loop-reverse w [] hs fits = unfold from_big_endian_loop in refl
loop-reverse w (x ∷ h) (hx, hs) fits =
    let held = low_number-lt h hs in
    let (below, value) = next_held w (length h) (low_number h) x hx held (omega arith) in
    ap (λ (t : Bytes). from_big_endian_loop w t 0) (reverse-cons x h)
    ∙ loop-append w (reverse h) (x ∷ []) 0
    ∙ ap (λ (r : ℕ). from_big_endian_loop w (x ∷ []) r) (loop-reverse w h hs (omega arith))
    ∙ unfold from_big_endian_loop in value

low_number-carry :
    (h : Bytes)
    → All IsByte h
    → low_number (carry h)
      ≡ (if low_number h + 1 == 2 ^ (8 * length h) then 0 else low_number h + 1)
unfolding low_number carry
low_number-carry [] hs = refl
low_number-carry (x ∷ h) (hx, hs) =
    let bits : 8 * suc (length h) ≡ 8 * length h + 8 = omega arith in
    let wider : 2 ^ (8 * suc (length h)) ≡ 2 ^ (8 * length h) * 256 =
      ap (λ (k : ℕ). 2 ^ k) bits ∙ pow_add (8 * length h) 8 in
    rw wider (ground (arith, low_number-carry h hs, low_number-lt h hs))

length-carry : (h : Bytes) → length (carry h) ≡ length h
unfolding carry
length-carry [] = refl
length-carry (x ∷ h) = ground (arith, length-carry h)

carry-IsByte : (h : Bytes) → All IsByte h → All IsByte (carry h)
unfolding carry
carry-IsByte [] hs = tt
carry-IsByte (x ∷ h) (hx, hs) = ground (arith, carry-IsByte h hs)

length-reverse : (h : Bytes) → length (reverse h) ≡ length h
length-reverse [] = refl
length-reverse (x ∷ h) =
    ap (λ (t : Bytes). length t) (reverse-cons x h)
    ∙ omega (arith, length-append (reverse h) (x ∷ []), length-reverse h)

reverse-IsByte : (h : Bytes) → All IsByte h → All IsByte (reverse h)
reverse-IsByte [] hs = tt
reverse-IsByte (x ∷ h) (hx, hs) =
    rw (reverse-cons x h) (All-append IsByte (reverse h) (x ∷ []) (reverse-IsByte h hs) (hx, tt))

-- The number of a hash, from its last byte on.
from_big_endian-low_number :
    (h : Bytes) → All IsByte h → from_big_endian (8 * length h) h ≡ low_number (reverse h)
unfolding from_big_endian
from_big_endian-low_number h hs =
    ap (λ (t : Bytes). from_big_endian_loop (8 * length h) t 0) (sym (reverse-reverse h))
    ∙ loop-reverse (8 * length h) (reverse h) (reverse-IsByte h hs)
        (omega (arith, length-reverse h))

from_big_endian-reverse :
    (w : ℕ) (h : Bytes)
    → All IsByte h
    → 8 * length h ≤ w
    → from_big_endian w (reverse h) ≡ low_number h
unfolding from_big_endian
from_big_endian-reverse w h hs fits = loop-reverse w h hs fits

wraps : (p a : ℕ) → a < p → (if a + 1 == p then 0 else a + 1) ≡ (a + 1) % p
wraps p a h = elim (Bool-cases (a + 1 == p)) [
  | inl last ↦ let whole : a + 1 ≡ p = ground arith in rw last (rw whole (sym (mod_self p)))
  | inr more ↦ rw more (sym (mod-eq_of_lt (ground arith)))
]

-- `operator++` adds one to the big-endian number, and comes round to zero behind the greatest.
pub from_big_endian-increment :
    (h : Bytes)
    → All IsByte h
    → from_big_endian (8 * length h) (increment h)
      ≡ (from_big_endian (8 * length h) h + 1) % 2 ^ (8 * length h)
unfolding increment
from_big_endian-increment h hs =
    let back = reverse h in
    let bytes = reverse-IsByte h hs in
    let size : length (carry back) ≡ length h = length-carry back ∙ length-reverse h in
    let same : length back ≡ length h = length-reverse h in
    let next : low_number (carry back) ≡ (low_number back + 1) % 2 ^ (8 * length back) =
      low_number-carry back bytes
      ∙ wraps (2 ^ (8 * length back)) (low_number back) (low_number-lt back bytes) in
    from_big_endian-reverse (8 * length h) (carry back) (carry-IsByte back bytes)
      (omega (arith, size))
    ∙ next
    ∙ ap (λ (n : ℕ). (low_number back + 1) % 2 ^ (8 * n)) same
    ∙ ap (λ (v : ℕ). (v + 1) % 2 ^ (8 * length h)) (sym (from_big_endian-low_number h hs))
