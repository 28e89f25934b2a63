-- ===== src/Cfxaddress/Polymod/Bounds.antt =====
-- The checksum has 40 bits, and its bytes are its bits.
use native.Mathlib.Nat.{two-pow-succ, mod-lt}
use cpp_conflux_sdk.Common.{
  ℕ, zero, suc, ◌+◌, ◌*◌, ◌/◌, ◌%◌, ◌^◌, ◌<◌, ◌≡◌, refl, sym, ap, ◌∙◌, [], ◌∷◌, arith, Bytes, All,
  IsByte, bit_and, drop, length,
}
use cpp_conflux_sdk.Common.Bits.{bit_xor-lt, bit_and_mask, mod_double, pow_pos, parts_join}
use cpp_conflux_sdk.Cfxaddress.Convert.BitStream.{to_bits, stream, to_bits_join}
use cpp_conflux_sdk.Cfxaddress.Polymod.{
  xor_if, reduce, step, polymod_loop, polymod, low_bytes, uint64_to_bytes,
}

xor_if-lt :
    (c0 mask generator c : ℕ)
    → generator < 2 ^ 40
    → c < 2 ^ 40
    → xor_if c0 mask generator c < 2 ^ 40
unfolding xor_if
xor_if-lt c0 mask generator c hg hc = ground (arith, bit_xor-lt 40 c generator hc hg)

reduce-lt : (c0 c : ℕ) → c < 2 ^ 40 → reduce c0 c < 2 ^ 40
unfolding reduce
reduce-lt c0 c h = xor_if-lt c0 _ _ _ (omega arith) (
    xor_if-lt c0 _ _ _ (omega arith) (
      xor_if-lt c0 _ _ _ (omega arith)
        (xor_if-lt c0 _ _ _ (omega arith) (xor_if-lt c0 _ _ _ (omega arith) h))))

shifted-lt : (c : ℕ) → bit_and c 0x07ffffffff * 2 ^ 5 % 2 ^ 64 < 2 ^ 40
shifted-lt c = omega (arith, bit_and_mask 35 c)

pub step-lt : (c d : ℕ) → d < 256 → step c d < 2 ^ 40
unfolding step
step-lt c d h = reduce-lt _ _ (bit_xor-lt 40 _ d (shifted-lt c) (omega arith))

pub polymod_loop-lt : (v : Bytes) (c : ℕ) → All IsByte v → c < 2 ^ 40 → polymod_loop v c < 2 ^ 40
unfolding polymod_loop
polymod_loop-lt [] c h hc = hc
polymod_loop-lt (d ∷ v) c (hd, h) hc = polymod_loop-lt v (step c d) h (step-lt c d hd)

-- The polynomial of bytes has 40 bits.
pub polymod-lt : (v : Bytes) → All IsByte v → polymod v < 2 ^ 40
unfolding polymod
polymod-lt v h = bit_xor-lt 40 _ 1 (polymod_loop-lt v 1 h (omega arith)) (omega arith)

-- Bits above the `w` lowest do not count.
to_bits-mod : (w x : ℕ) → to_bits w (x % 2 ^ w) ≡ to_bits w x
unfolding to_bits
to_bits-mod zero x = refl
to_bits-mod (suc w) x =
    let whole = mod_double (2 ^ w) x (pow_pos w) in
    let half : x % 2 ^ suc w / 2 ≡ x / 2 % 2 ^ w =
      omega (arith, whole, ap (λ (t : ℕ). x % t) (two-pow-succ w)) in
    let low : x % 2 ^ suc w % 2 ≡ x % 2 =
      omega (arith, whole, ap (λ (t : ℕ). x % t) (two-pow-succ w)) in
    rw (half, low, to_bits-mod w (x / 2))

-- The lowest bytes of a number are its lowest bits.
stream-low_bytes : (i num : ℕ) → stream 8 (low_bytes i num) ≡ to_bits (i * 8) num
unfolding low_bytes stream
stream-low_bytes zero num = unfold to_bits in refl
stream-low_bytes (suc i) num =
    let k = i * 8 in
    let width : suc i * 8 ≡ 8 + k = omega arith in
    rw (width, stream-low_bytes i num, to_bits-mod 8 (num / 2 ^ k))
      (rw (← to_bits-mod k num) (
        sym (to_bits_join 8 k (num / 2 ^ k) (num % 2 ^ k) (mod-lt num (pow_pos k)))
        ∙ ap (to_bits (8 + k)) (parts_join k num)))

low_bytes-IsByte : (i num : ℕ) → All IsByte (low_bytes i num)
unfolding low_bytes
low_bytes-IsByte zero num = tt
low_bytes-IsByte (suc i) num = (omega arith, low_bytes-IsByte i num)

-- The five bytes that are left of the eight hold the bits of a number below 2 ^ 40.
pub checksum_bytes :
    (num : ℕ)
    → (stream 8 (drop 3 (uint64_to_bytes num)) ≡ to_bits 40 num)
      × All IsByte (drop 3 (uint64_to_bytes num))
      × (length (drop 3 (uint64_to_bytes num)) ≡ 5)
checksum_bytes num =
    rw cut (stream-low_bytes 5 num, low_bytes-IsByte 5 num, unfold low_bytes in refl)
  where
    cut : drop 3 (uint64_to_bytes num) ≡ low_bytes 5 num
    cut = unfold uint64_to_bytes low_bytes in refl
