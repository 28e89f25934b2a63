-- ===== src/Abi.antt =====
-- libcfxcore/abi: the coding of the parameters of a call. Here ValueEncoder and the numbers of
-- uint256.h and ParamNumber.h. What appends to a `Data&` returns the bytes that it appends; what reads
-- at an offset returns the value and the offset behind it, or nothing where the source returns false.
use cpp_conflux_sdk.Common.{
  ℕ, ◌+◌, ◌-◌, ◌*◌, ◌/◌, ◌^◌, ◌≤◌, ◌<◌, ◌≡◌, Bool, true, false, ◌||◌, Option, none, some, [], ◌∷◌,
  ◌++◌, Bytes, length, take, drop, replicate, ltb, leb, ◌==◌, if◌then◌else◌,
}
use cpp_conflux_sdk.CommonData.Endian.{from_big_endian}
pub mod Words
pub mod Param
pub mod ParamSet
pub mod Function

infixl 5 ◌>>=◌
abbrev pub ◌>>=◌ {ℓ κ} : {A : Type ℓ} {B : Type κ} → Option A → (A → Option B) → Option B
none >>= f = none
some a >>= f = f a

-- What is taken from boost's numbers: the bytes of a number, the number of some bytes, and the
-- conversion of a 256-bit number to an unsigned type of fewer bits.
pub record Boost : Type 0 where
  pub export_bits : ℕ → Bytes
  pub import_bits : Bytes → ℕ
  pub narrow : ℕ → ℕ → ℕ

-- As documented: the bytes are written and read highest first, no more of them than the number has,
-- and a number that fits is converted to itself.
pub record IsExact (b : Boost) : Type 0 where
  pub export_length : (v : ℕ) → v < 2 ^ 256 → length (b.export_bits v) ≤ 32
  pub export_value : (v : ℕ) → v < 2 ^ 256 → from_big_endian 256 (b.export_bits v) ≡ v
  pub import_value : (d : Bytes) → length d ≤ 32 → b.import_bits d ≡ from_big_endian 256 d
  pub narrow_exact : (bits v : ℕ) → v < 2 ^ bits → b.narrow bits v ≡ v

abbrev pub encoded_int_size : ℕ
encoded_int_size = 32

unfoldable pub padded_to32 : ℕ → ℕ
padded_to32 len = (len + 31) / 32 * 32

unfoldable pub pad_needed32 : ℕ → ℕ
pad_needed32 len = (len + 31) / 32 * 32 - len

unfoldable pub padded_on_left : Bytes → Bytes
padded_on_left d =
    if leb encoded_int_size (length d) then d else replicate (encoded_int_size - length d) 0 ++ d

module _ (b : Boost) where
  unfoldable pub encode_uint256 : ℕ → Bytes
  encode_uint256 value = padded_on_left (b.export_bits value)

  unfoldable pub load_with_offset : Bytes → ℕ → ℕ
  load_with_offset d offset =
      if length d == 0 || ltb (length d) (32 + offset)
      then 0
      else b.import_bits (take 32 (drop offset d))

  -- `ABI::decode`.
  unfoldable pub decode_uint256 : Bytes → ℕ → Option (ℕ × ℕ)
  decode_uint256 encoded offset =
      if length encoded == 0 || ltb (length encoded) (encoded_int_size + offset)
      then none
      else some (load_with_offset encoded offset, offset + encoded_int_size)
