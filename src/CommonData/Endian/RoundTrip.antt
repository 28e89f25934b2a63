-- ===== src/CommonData/Endian/RoundTrip.antt =====
-- Bytes of a number, and the number of bytes.
use native.Mathlib.Nat.{div-add-mod, mod-lt, mod-le, mod-eq_of_lt, add-mul-mod_self_left}
use cpp_conflux_sdk.Common.{
  ℕ, zero, suc, ◌+◌, ◌*◌, ◌/◌, ◌%◌, ◌^◌, ◌≤◌, ◌<◌, ◌≡◌, refl, sym, ap, ◌∙◌, bit_and, bit_or, [],
  ◌∷◌, ◌++◌, arith, Bytes, length, length-append, append-nil, append_assoc, All, IsByte,
}
use cpp_conflux_sdk.Common.Bits.{bit_or_shift, bit_and_mask, pow_add, pow_pos, pow_mono, shift-lt}
use cpp_conflux_sdk.CommonData.Endian.{to_big_endian, from_big_endian_loop, from_big_endian}

pub loop-append :
    (w : ℕ) (s t : Bytes) (ret : ℕ)
    → from_big_endian_loop w (s ++ t) ret ≡ from_big_endian_loop w t (from_big_endian_loop w s ret)
unfolding from_big_endian_loop
loop-append w [] t ret = refl
loop-append w (i ∷ s) t ret = loop-append w s t (bit_or (ret * 2 ^ 8) i % 2 ^ w)

-- The bytes of `val` that are kept, as the lowest bits of `val`.
low_bytes-split :
    (n val : ℕ) → val / 2 ^ 8 % 2 ^ (8 * n) * 2 ^ 8 + val % 2 ^ 8 ≡ val % 2 ^ (8 * suc n)
low_bytes-split n val =
    let p = 2 ^ (8 * n) in
    let x = val / 256 in
    let width : 8 * suc n ≡ 8 * n + 8 = omega arith in
    let product : 2 ^ (8 * suc n) ≡ p * 256 = ap (λ (k : ℕ). 2 ^ k) width ∙ pow_add (8 * n) 8 in
    let below : x % p < p = mod-lt x (pow_pos (8 * n)) in
    let small : x % p * 256 + val % 256 < p * 256 = omega (arith, below) in
    let whole : val ≡ x % p * 256 + val % 256 + p * 256 * (x / p) =
      grind (arith, div-add-mod x p) in
    let left : val % (p * 256) ≡ x % p * 256 + val % 256 =
      ap (λ (t : ℕ). t % (p * 256)) whole
      ∙ add-mul-mod_self_left (x % p * 256 + val % 256) (p * 256) (x / p)
      ∙ mod-eq_of_lt small in
    sym (ap (λ (t : ℕ). val % t) product ∙ left)

pub next_byte :
    (w ret b : ℕ) → b < 256 → from_big_endian_loop w (b ∷ []) ret ≡ (ret * 2 ^ 8 + b) % 2 ^ w
unfolding from_big_endian_loop
next_byte w ret b h = rw (bit_or_shift 8 ret b h)

next_low :
    (w n val r : ℕ)
    → val < 2 ^ w
    → r ≡ val / 2 ^ 8 % 2 ^ (8 * n)
    → (r * 2 ^ 8 + bit_and val 0xff) % 2 ^ w ≡ val % 2 ^ (8 * suc n)
next_low w n val r h front =
    rw (front, bit_and_mask 8 val, low_bytes-split n val)
      (mod-eq_of_lt (omega (arith, mod-le val (2 ^ (8 * suc n)))))

-- A number that the type holds, written into `n` bytes and read again: its lowest `8 * n` bits.
pub from_big_endian-to_big_endian :
    (w n val : ℕ) → val < 2 ^ w → from_big_endian w (to_big_endian n val) ≡ val % 2 ^ (8 * n)
unfolding from_big_endian to_big_endian
from_big_endian-to_big_endian w zero val h = unfold from_big_endian_loop in omega arith
from_big_endian-to_big_endian w (suc n) val h =
    loop-append w (to_big_endian n (val / 2 ^ 8)) (bit_and val 0xff ∷ []) 0
    ∙ next_byte w _ (bit_and val 0xff) (omega (arith, bit_and_mask 8 val))
    ∙ next_low w n val _ h (from_big_endian-to_big_endian w n (val / 2 ^ 8) (omega (arith, h)))

pub length-to_big_endian : (n val : ℕ) → length (to_big_endian n val) ≡ n
unfolding to_big_endian
length-to_big_endian zero val = refl
length-to_big_endian (suc n) val = omega (
  arith,
  length-append (to_big_endian n (val / 2 ^ 8)) (bit_and val 0xff ∷ []),
  length-to_big_endian n (val / 2 ^ 8),
)

-- Bytes read from a number that is known, up to the last of them.
to_big_endian-next :
    (n val b : ℕ)
    → b < 256
    → to_big_endian (suc n) (val * 2 ^ 8 + b) ≡ to_big_endian n val ++ (b ∷ [])
unfolding to_big_endian
to_big_endian-next n val b h =
    let high : (val * 2 ^ 8 + b) / 2 ^ 8 ≡ val = omega arith in
    let low : bit_and (val * 2 ^ 8 + b) 0xff ≡ b =
      omega (arith, bit_and_mask 8 (val * 2 ^ 8 + b)) in
    rw (high, low) refl

-- One byte more, read into a type that has room for it.
pub next_held :
    (w n ret b : ℕ)
    → b < 256
    → ret < 2 ^ (8 * n)
    → 8 * suc n ≤ w
    → (ret * 2 ^ 8 + b < 2 ^ (8 * suc n)) × (bit_or (ret * 2 ^ 8) b % 2 ^ w ≡ ret * 2 ^ 8 + b)
next_held w n ret b hb small fits =
    let bits : 8 * suc n ≡ 8 * n + 8 = omega arith in
    let small' : ret * 2 ^ 8 + b < 2 ^ (8 * suc n) = rw bits (shift-lt (8 * n) 8 ret b small hb) in
    let held : ret * 2 ^ 8 + b < 2 ^ w = omega (arith, small', pow_mono (8 * suc n) w fits) in
    (small', ap (λ (t : ℕ). t % 2 ^ w) (bit_or_shift 8 ret b hb) ∙ mod-eq_of_lt held)

-- The number that was read so far goes on with the bytes that follow.
loop-to_big_endian :
    (w n ret : ℕ) (bytes : Bytes)
    → All IsByte bytes
    → ret < 2 ^ (8 * n)
    → 8 * (n + length bytes) ≤ w
    → to_big_endian (n + length bytes) (from_big_endian_loop w bytes ret)
      ≡ to_big_endian n ret ++ bytes
unfolding from_big_endian_loop
loop-to_big_endian w n ret [] h small fits =
    let same : n + 0 ≡ n = omega arith in rw (same, append-nil)
loop-to_big_endian w n ret (b ∷ bytes) (hb, h) small fits =
    let (small', value) = next_held w n ret b hb small (omega arith) in
    let count : n + suc (length bytes) ≡ suc n + length bytes = omega arith in
    rw (count, value)
      (loop-to_big_endian w (suc n) (ret * 2 ^ 8 + b) bytes h small' (omega arith)
        ∙ ap (λ (t : Bytes). t ++ bytes) (to_big_endian-next n ret b hb)
        ∙ append_assoc (to_big_endian n ret) (b ∷ []) bytes)

-- Bytes that fit into the type, read and written into as many bytes: the same bytes.
pub to_big_endian-from_big_endian :
    (w : ℕ) (bytes : Bytes)
    → All IsByte bytes
    → 8 * length bytes ≤ w
    → to_big_endian (length bytes) (from_big_endian w bytes) ≡ bytes
unfolding from_big_endian
to_big_endian-from_big_endian w bytes h fits =
    let none : 0 + length bytes ≡ length bytes = omega arith in
    ap (λ (n : ℕ). to_big_endian n (from_big_endian_loop w bytes 0)) (sym none)
    ∙ loop-to_big_endian w 0 0 bytes h (omega arith) (omega arith)
    ∙ unfold to_big_endian in refl
