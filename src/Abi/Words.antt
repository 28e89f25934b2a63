-- ===== src/Abi/Words.antt =====
-- A number in its 32 bytes.
use native.Mathlib.Nat.{mod-eq_of_lt}
use cpp_conflux_sdk.Common.{
  ℕ, zero, suc, ◌+◌, ◌-◌, ◌^◌, ◌<◌, ◌≡◌, refl, ap, ◌∙◌, false, Bool-cases, inl, inr, some, ◌++◌,
  arith, Bytes, length, replicate, length-append, length-replicate, take-append_length,
  drop-append_length, ltb, leb, ◌==◌,
}
use cpp_conflux_sdk.Common.Bits.{pow_pos}
use cpp_conflux_sdk.CommonData.Endian.{from_big_endian, from_big_endian_loop}
use cpp_conflux_sdk.Abi.{
  Boost, IsExact, padded_on_left, padded_to32, pad_needed32, encode_uint256, load_with_offset,
  decode_uint256,
}

from_big_endian_zeros :
    (w k : ℕ) (d : Bytes) → from_big_endian w (replicate k 0 ++ d) ≡ from_big_endian w d
unfolding from_big_endian from_big_endian_loop
from_big_endian_zeros w zero d = refl
from_big_endian_zeros w (suc k) d =
    ap (λ (r : ℕ). from_big_endian_loop w (replicate k 0 ++ d) r) (mod-eq_of_lt (pow_pos w))
    ∙ from_big_endian_zeros w k d

module _ (b : Boost) (exact : IsExact b) where
  -- Every number is written as 32 bytes.
  pub length-encode_uint256 : (v : ℕ) → v < 2 ^ 256 → length (encode_uint256 b v) ≡ 32
  unfolding encode_uint256 padded_on_left
  length-encode_uint256 v h =
      let short = exact.export_length v h in
      elim (Bool-cases (leb 32 (length (b.export_bits v)))) [
        | inl full ↦ rw full (ground arith)
        | inr less ↦ rw less (
            omega (
              arith,
              short,
              length-append (replicate (32 - length (b.export_bits v)) 0) (b.export_bits v),
              length-replicate {A = ℕ} (32 - length (b.export_bits v)) 0,
            ))
      ]

  encoded_value : (v : ℕ) → v < 2 ^ 256 → from_big_endian 256 (encode_uint256 b v) ≡ v
  unfolding encode_uint256 padded_on_left
  encoded_value v h = elim (Bool-cases (leb 32 (length (b.export_bits v)))) [
    | inl full ↦ rw full (exact.export_value v h)
    | inr less ↦ rw less (from_big_endian_zeros 256 _ (b.export_bits v) ∙ exact.export_value v h)
  ]

  import-encode_uint256 : (v : ℕ) → v < 2 ^ 256 → b.import_bits (encode_uint256 b v) ≡ v
  import-encode_uint256 v h =
      exact.import_value (encode_uint256 b v) (omega (arith, length-encode_uint256 v h))
      ∙ encoded_value v h

  -- A number below 2 ^ 256 is read back from between any bytes, and the offset moves by 32.
  pub decode_uint256-encode_uint256 :
      (v : ℕ) (front rest : Bytes)
      → v < 2 ^ 256
      → decode_uint256 b (front ++ (encode_uint256 b v ++ rest)) (length front)
        ≡ some (v, length front + 32)
  unfolding decode_uint256 load_with_offset
  decode_uint256-encode_uint256 v front rest h =
      let word = length-encode_uint256 v h in
      let all = length-append front (encode_uint256 b v ++ rest) in
      let tail = length-append (encode_uint256 b v) rest in
      let whole = length (front ++ (encode_uint256 b v ++ rest)) in
      let some' : (whole == 0) ≡ false = ground (arith, all, tail, word) in
      let fits : ltb whole (32 + length front) ≡ false = ground (arith, all, tail, word) in
      rw (
        some',
        fits,
        drop-append_length (length front) front (encode_uint256 b v ++ rest) refl,
        take-append_length 32 (encode_uint256 b v) rest word,
        import-encode_uint256 v h,
      )

pub padded_to32-sum : (n : ℕ) → n + pad_needed32 n ≡ padded_to32 n
unfolding pad_needed32 padded_to32
padded_to32-sum n = omega arith
