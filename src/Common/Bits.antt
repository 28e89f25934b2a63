-- ===== src/Common/Bits.antt =====
-- Laws of the bit operations that stand for shifts and masks, for every width.
use Prim.Native.Nat.{ℕ, zero, suc, ◌+◌, ◌-◌, ◌*◌, ◌/◌, ◌%◌, ◌^◌, ◌≤◌, ◌<◌, min, max}
use Prim.Native.Nat.{bit_and, bit_or, bit_xor, digits, bitwise, differ}
use Prim.Native.Nat.{bit_and-bitwise, bit_or-bitwise, bit_xor-bitwise}
use mathlib.Core.Path.{◌≡◌, refl, ap, ap₂, ◌∙◌}
use native.Mathlib.Nat.{
  two-pow-succ, div-add-mod, div-add-mod', mod-lt, div-lt_iff_lt-mul, pow-le-pow_right,
}
use native.Mathlib.Omega.{arith}

module _ (z : ℕ → ℕ) (f : ℕ → ℕ → ℕ) where
  -- Any fuel that covers the first operand gives the same digits.
  digits_spare : (n m a b : ℕ) → a ≤ n → a ≤ m → digits z f n a b ≡ digits z f m a b
  digits_spare zero zero a b _ _ = refl
  digits_spare (suc n) zero zero b _ _ = refl
  digits_spare (suc n) zero (suc a) b _ below = absurd (omega arith)
  digits_spare zero (suc m) zero b _ _ = refl
  digits_spare zero (suc m) (suc a) b below _ = absurd (omega arith)
  digits_spare (suc n) (suc m) zero b _ _ = refl
  digits_spare (suc n) (suc m) (suc a) b p q =
      let halves = digits_spare n m (suc a / 2) (b / 2) (omega arith) (omega arith) in
      ap (λ (t : ℕ). t * 2 + f (suc a % 2) (b % 2)) halves

  -- The lowest digit, split off.
  lowest_digit :
      ((b : ℕ) → z b ≡ z (b / 2) * 2 + f 0 (b % 2))
      → (a b : ℕ) → bitwise z f a b ≡ bitwise z f (a / 2) (b / 2) * 2 + f (a % 2) (b % 2)
  lowest_digit out zero b = out b
  lowest_digit out (suc a) b =
      ap (λ (t : ℕ). t * 2 + f (suc a % 2) (b % 2))
        (digits_spare a (suc a / 2) (suc a / 2) (b / 2) (omega arith) (omega arith))

pub bit_or_digit : (a b : ℕ) → bit_or a b ≡ bit_or (a / 2) (b / 2) * 2 + max (a % 2) (b % 2)
bit_or_digit a b = simp bit_or-bitwise (lowest_digit (λ y. y) max (λ y. omega arith) a b)

pub bit_and_digit : (a b : ℕ) → bit_and a b ≡ bit_and (a / 2) (b / 2) * 2 + min (a % 2) (b % 2)
bit_and_digit a b = simp bit_and-bitwise (lowest_digit (λ y. 0) min (λ y. omega arith) a b)

pub bit_xor_digit : (a b : ℕ) → bit_xor a b ≡ bit_xor (a / 2) (b / 2) * 2 + differ (a % 2) (b % 2)
bit_xor_digit a b = simp bit_xor-bitwise (lowest_digit (λ y. y) differ (λ y. omega arith) a b)

-- A product with a power of two, halved.
half_shift : (k a : ℕ) → (a * 2 ^ suc k / 2 ≡ a * 2 ^ k) × (a * 2 ^ suc k % 2 ≡ 0)
half_shift k a = omega (arith, ap (λ (t : ℕ). a * t) (two-pow-succ k))

bit_or-zero : (a : ℕ) → bit_or a 0 ≡ a
bit_or-zero a = grow a a (omega arith)
  where
    grow : (n a : ℕ) → a ≤ n → bit_or a 0 ≡ a
    grow n zero h = refl
    grow zero (suc a) h = absurd (omega arith)
    grow (suc n) (suc a) h = omega (arith, bit_or_digit (suc a) 0, grow n (suc a / 2) (omega arith))

pub bit_and-zero : (a : ℕ) → bit_and a 0 ≡ 0
bit_and-zero a = shrink a a (omega arith)
  where
    shrink : (n a : ℕ) → a ≤ n → bit_and a 0 ≡ 0
    shrink n zero h = refl
    shrink zero (suc a) h = absurd (omega arith)
    shrink (suc n) (suc a) h =
        omega (arith, bit_and_digit (suc a) 0, shrink n (suc a / 2) (omega arith))

-- `a << k | d`, where `d` has at most `k` bits.
pub bit_or_shift : (k a d : ℕ) → d < 2 ^ k → bit_or (a * 2 ^ k) d ≡ a * 2 ^ k + d
bit_or_shift zero a d h = let e : d ≡ 0 = omega arith in rw e (bit_or-zero (a * 1) ∙ omega arith)
bit_or_shift (suc k) a d h = ground (
  arith,
  bit_or_digit (a * 2 ^ suc k) d,
  half_shift k a,
  two-pow-succ k,
  bit_or_shift k a (d / 2),
)

half_mask : (k : ℕ) → 0 < 2 ^ k → ((2 ^ suc k - 1) / 2 ≡ 2 ^ k - 1) × ((2 ^ suc k - 1) % 2 ≡ 1)
half_mask k h = omega (arith, two-pow-succ k)

pub pow_pos : (k : ℕ) → 0 < 2 ^ k
pow_pos zero = omega arith
pow_pos (suc k) = omega (arith, two-pow-succ k, pow_pos k)

-- The remainder by an even number, digit by digit.
pub mod_double : (p a : ℕ) → 0 < p → a % (p + p) ≡ a / 2 % p * 2 + a % 2
mod_double p a h = grind (arith, div-add-mod (a / 2) p, mod-lt (a / 2) h)

-- `a & ((1 << k) - 1)`.
pub bit_and_mask : (k a : ℕ) → bit_and a (2 ^ k - 1) ≡ a % 2 ^ k
bit_and_mask zero a = bit_and-zero a ∙ omega arith
bit_and_mask (suc k) a = ground (
  arith,
  bit_and_digit a (2 ^ suc k - 1),
  half_mask k (pow_pos k),
  two-pow-succ k,
  bit_and_mask k (a / 2),
  mod_double (2 ^ k) a (pow_pos k),
)

differ-lt : (x y : ℕ) → x < 2 → y < 2 → differ x y < 2
differ-lt zero y p q = q
differ-lt (suc x) zero p q = p
differ-lt (suc x) (suc y) p q = differ-lt x y (omega arith) (omega arith)

pub bit_xor-lt : (k a b : ℕ) → a < 2 ^ k → b < 2 ^ k → bit_xor a b < 2 ^ k
bit_xor-lt zero a b p q =
    let e : a ≡ 0 = omega arith in let e' : b ≡ 0 = omega arith in rw (e, e') (omega arith)
bit_xor-lt (suc k) a b p q = omega (
  arith,
  bit_xor_digit a b,
  two-pow-succ k,
  bit_xor-lt k (a / 2) (b / 2) (omega (arith, two-pow-succ k)) (omega (arith, two-pow-succ k)),
  differ-lt (a % 2) (b % 2) (omega arith) (omega arith),
)

pub pow_add : (m k : ℕ) → 2 ^ (m + k) ≡ 2 ^ m * 2 ^ k
pow_add m zero = let e : m + 0 ≡ m = omega arith in rw e (omega arith)
pow_add m (suc k) =
    let e : m + suc k ≡ suc (m + k) = omega arith in
    rw e
      (omega (arith, two-pow-succ (m + k), pow_add m k, ap (λ (t : ℕ). 2 ^ m * t) (two-pow-succ k)))

-- `a << k | d` has as many bits as both together.
pub shift-lt : (m k a d : ℕ) → a < 2 ^ m → d < 2 ^ k → a * 2 ^ k + d < 2 ^ (m + k)
shift-lt m k a d ha hd = rw (pow_add m k) (grind arith)

-- The high part of a number of `m + k` bits.
pub high-lt : (m k a : ℕ) → a < 2 ^ (m + k) → a / 2 ^ k < 2 ^ m
high-lt m k a h = (div-lt_iff_lt-mul (pow_pos k)).1 (rw (pow_add m k) at h)

-- Both parts of a number, put together again.
pub parts_join : (k a : ℕ) → a / 2 ^ k * 2 ^ k + a % 2 ^ k ≡ a
parts_join k a = div-add-mod' a (2 ^ k)

pub pow_mono : (m k : ℕ) → m ≤ k → 2 ^ m ≤ 2 ^ k
pow_mono m k h = pow-le-pow_right (omega arith) h

-- Two digits and their exclusive or have an even sum.
differ_sum : (x y : ℕ) → x < 2 → y < 2 → (differ x y + (x + y)) % 2 ≡ 0
differ_sum zero zero p q = refl
differ_sum zero (suc y) p q = let one : y ≡ 0 = omega arith in rw one refl
differ_sum (suc x) zero p q = let one : x ≡ 0 = omega arith in rw one refl
differ_sum (suc x) (suc y) p q =
    let one : x ≡ 0 = omega arith in let one' : y ≡ 0 = omega arith in rw (one, one') refl

-- The exclusive or by its half and its last digit.
bit_xor_parts :
    (a b : ℕ)
    → (bit_xor a b / 2 ≡ bit_xor (a / 2) (b / 2)) × ((bit_xor a b + (a % 2 + b % 2)) % 2 ≡ 0)
bit_xor_parts a b = omega (
  arith,
  bit_xor_digit a b,
  differ-lt (a % 2) (b % 2) (omega arith) (omega arith),
  differ_sum (a % 2) (b % 2) (omega arith) (omega arith),
)

bit_xor-zero : (a : ℕ) → bit_xor a 0 ≡ a
bit_xor-zero a = grow a a (omega arith)
  where
    grow : (n a : ℕ) → a ≤ n → bit_xor a 0 ≡ a
    grow n zero h = refl
    grow zero (suc a) h = absurd (omega arith)
    grow (suc n) (suc a) h =
        omega (arith, bit_xor_parts (suc a) 0, grow n (suc a / 2) (omega arith))

-- What was combined by exclusive or with one number is determined.
pub bit_xor-cancel : (a b c : ℕ) → bit_xor a c ≡ bit_xor b c → a ≡ b
bit_xor-cancel a b c e = equal (a + b) a b c (omega arith) e
  where
    equal : (n a b c : ℕ) → a + b ≤ n → bit_xor a c ≡ bit_xor b c → a ≡ b
    equal zero a b c h e = omega arith
    equal (suc n) zero zero c h e = refl
    equal (suc n) a b c h e =
        let pa = bit_xor_parts a c in
        let pb = bit_xor_parts b c in
        omega (arith, pa, pb, equal n (a / 2) (b / 2) (c / 2) (omega arith) (omega arith))

-- The lowest digits of an exclusive or.
pub bit_xor-mod : (k a b : ℕ) → bit_xor a b % 2 ^ k ≡ bit_xor (a % 2 ^ k) (b % 2 ^ k)
bit_xor-mod zero a b =
    let z : a % 1 ≡ 0 = omega arith in let z' : b % 1 ≡ 0 = omega arith in rw (z, z') (omega arith)
bit_xor-mod (suc k) a b =
    let p = 2 ^ k in
    let half : (x : ℕ) → (x % (p + p) / 2 ≡ x / 2 % p) × (x % (p + p) % 2 ≡ x % 2) =
      λ x. omega (arith, mod_double p x (pow_pos k)) in
    rw (two-pow-succ k) (
      omega (
        arith,
        bit_xor_parts (a % (p + p)) (b % (p + p)),
        bit_xor_parts a b,
        half a,
        half b,
        half (bit_xor a b),
        ap₂ (λ (x y : ℕ). bit_xor x y) (half a).0 (half b).0,
        ap (λ (x : ℕ). x % p) (bit_xor_parts a b).0,
        bit_xor-mod k (a / 2) (b / 2),
      ))

-- `a << k ^ d`, where `d` has at most `k` bits.
pub bit_xor_shift : (k a d : ℕ) → d < 2 ^ k → bit_xor (a * 2 ^ k) d ≡ a * 2 ^ k + d
bit_xor_shift zero a d h = let e : d ≡ 0 = omega arith in rw e (bit_xor-zero (a * 1) ∙ omega arith)
bit_xor_shift (suc k) a d h = omega (
  arith,
  bit_xor_parts (a * 2 ^ suc k) d,
  half_shift k a,
  two-pow-succ k,
  bit_xor_shift k a (d / 2) (omega (arith, two-pow-succ k)),
  ap (λ (t : ℕ). bit_xor t (d / 2)) (half_shift k a).0,
)
