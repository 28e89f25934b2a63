-- ===== src/Cfxaddress/Polymod.antt =====
-- cfxaddress/lib.cpp: the checksum polynomial, and a number as eight bytes.
pub mod Bounds
pub mod Detects
use cpp_conflux_sdk.Common.{
  ℕ, zero, suc, ◌*◌, ◌/◌, ◌%◌, ◌^◌, bit_and, bit_xor, [], ◌∷◌, Bytes, ◌==◌, if◌then◌else◌,
}

-- `if (c0 & mask) c ^= generator;`
unfoldable pub xor_if : ℕ → ℕ → ℕ → ℕ → ℕ
xor_if c0 mask generator c = if bit_and c0 mask == 0 then c else bit_xor c generator

-- The five conditional statements, for the bits of `c0`.
unfoldable pub reduce : ℕ → ℕ → ℕ
reduce c0 c =
    let c1 = xor_if c0 0x01 0x98f2bc8e61 c in
    let c2 = xor_if c0 0x02 0x79b76d99e2 c1 in
    let c3 = xor_if c0 0x04 0xf33e5fb3c4 c2 in
    let c4 = xor_if c0 0x08 0xae2eabe2a8 c3 in xor_if c0 0x10 0x1e4f43e470 c4

-- One round of the loop, over `uint64_t`.
unfoldable pub step : ℕ → ℕ → ℕ
step c d =
    let c0 = c / 2 ^ 35 % 2 ^ 8 in reduce c0 (bit_xor (bit_and c 0x07ffffffff * 2 ^ 5 % 2 ^ 64) d)

unfoldable pub polymod_loop : Bytes → ℕ → ℕ
polymod_loop [] c = c
polymod_loop (d ∷ v) c = polymod_loop v (step c d)

unfoldable pub polymod : Bytes → ℕ
polymod v = bit_xor (polymod_loop v 1) 1

-- The bytes `r[8 - n], …, r[7]`, where `r[7 - i]` is `uint8_t(num >> (i * 8))`.
unfoldable pub low_bytes : ℕ → ℕ → Bytes
low_bytes zero num = []
low_bytes (suc i) num = num / 2 ^ (i * 8) % 2 ^ 8 ∷ low_bytes i num

unfoldable pub uint64_to_bytes : ℕ → Bytes
uint64_to_bytes num = low_bytes 8 num
