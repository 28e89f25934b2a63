-- ===== src/Abi/Param.antt =====
-- libcfxcore/abi: the parameters that hold no other parameters: unsigned numbers (ParamNumber.h),
-- addresses, which are unsigned numbers of 160 bits (ParamAddress.h), bytes and strings (Bytes.h).
pub mod RoundTrip
use cpp_conflux_sdk.Common.{
  ℕ, codes, ◌+◌, ◌-◌, ◌^◌, ◌%◌, bit_and, Bool, true, false, not, Option, none, some, [], ◌∷◌, ◌++◌,
  Bytes, length, take, drop, replicate, ltb, ◌==◌, if◌then◌else◌,
}
use cpp_conflux_sdk.Cfxaddress.NetworkType.Decimal.{print_nat}
use cpp_conflux_sdk.Abi.{Boost, padded_to32, pad_needed32, encode_uint256, decode_uint256, ◌>>=◌}

-- `ParamNumberType<T>` of an unsigned T of so many bits, `ParamBool`, `ParamUIntN`, `ParamAddress`,
-- `ParamByteArray`, `ParamByteArrayFix`, `ParamString`.
pub data Param : Type 0 where
  number : ℕ → ℕ → Param
  boolean : Bool → Param
  uint_n : ℕ → ℕ → Param
  address : ℕ → Param
  byte_array : Bytes → Param
  byte_array_fix : ℕ → Bytes → Param
  string : Bytes → Param

-- A parameter as the constructor without a value makes it.
unfoldable pub fresh : Param → Param
fresh (number bits val) = number bits 0
fresh (boolean val) = boolean false
fresh (uint_n bits val) = uint_n bits 0
fresh (address val) = address 0
fresh (byte_array val) = byte_array []
fresh (byte_array_fix n val) = byte_array_fix n (replicate n 0)
fresh (string val) = string []

unfoldable pub is_dynamic : Param → Bool
is_dynamic (number bits val) = false
is_dynamic (boolean val) = false
is_dynamic (uint_n bits val) = false
is_dynamic (address val) = false
is_dynamic (byte_array val) = true
is_dynamic (byte_array_fix n val) = false
is_dynamic (string val) = true

unfoldable pub get_size : Param → ℕ
get_size (number bits val) = 32
get_size (boolean val) = 32
get_size (uint_n bits val) = 32
get_size (address val) = 32
get_size (byte_array val) = 32 + padded_to32 (length val)
get_size (byte_array_fix n val) = padded_to32 (length val)
get_size (string val) = 32 + padded_to32 (length val)

-- `getType`.
unfoldable pub get_type : Param → Bytes
get_type (number bits val) = codes "uint" ++ print_nat bits
get_type (boolean val) = codes "bool"
get_type (uint_n bits val) = codes "uint" ++ print_nat bits
get_type (address val) = codes "address"
get_type (byte_array val) = codes "bytes"
get_type (byte_array_fix n val) = codes "bytes" ++ print_nat n
get_type (string val) = codes "string"

-- `maskForBits`, and `setVal` of `ParamUIntN`.
pub mask_for_bits : ℕ → ℕ
mask_for_bits bits = 2 ^ bits - 1

pub set_val : ℕ → ℕ → ℕ
set_val bits val = bit_and val (mask_for_bits bits)

-- `ParamByteArrayFix::encode`, and the end of `ParamByteArray::encodeBytes`.
unfoldable pub encode_padded : Bytes → Bytes
encode_padded bytes = bytes ++ replicate (pad_needed32 (length bytes)) 0

-- `decodeBytesFix`: `decoded` is what the parameter held, and keeps what stands behind `n` bytes.
pub decode_bytes_fix : Bytes → ℕ → Bytes → ℕ → Option (Bytes × ℕ)
decode_bytes_fix encoded n decoded offset =
    let room =
      if ltb (length decoded) n then decoded ++ replicate (n - length decoded) 0 else decoded in
    if ltb (length encoded) (offset + n)
    then none
    else some (take n (drop offset encoded) ++ drop n room, offset + padded_to32 n)

-- In `decodeBytes`, with the length read and the offset behind it. The sum that is compared has 64
-- bits; where it wraps round, the source then reads outside the data, for which there is no model.
pub read_bytes : Bytes → ℕ → ℕ → ℕ → Option (Bytes × ℕ)
read_bytes encoded orig_offset len offset =
    if not (len == len % 2 ^ 64)
    then none
    else if ltb (length encoded) ((offset + len) % 2 ^ 64)
    then none
    else some
        (take len (drop offset encoded), orig_offset + padded_to32 (offset + len - orig_offset))

module _ (b : Boost) where
  unfoldable pub encode_bytes : Bytes → Bytes
  encode_bytes bytes = encode_uint256 b (length bytes) ++ encode_padded bytes

  unfoldable pub decode_bytes : Bytes → ℕ → Option (Bytes × ℕ)
  decode_bytes encoded orig_offset = do
    word ← decode_uint256 b encoded orig_offset
    read_bytes encoded orig_offset word.0 word.1

  -- `ParamString::encodeString` and `decodeString`; the text is its bytes.
  unfoldable pub encode_string : Bytes → Bytes
  encode_string decoded = encode_bytes decoded

  unfoldable pub decode_string : Bytes → ℕ → Option (Bytes × ℕ)
  decode_string encoded offset = decode_bytes encoded offset >>= λ data'. some (data'.0, data'.1)

  -- `ParamNumberType<T>::decodeNumber`, for an unsigned T of so many bits.
  unfoldable pub decode_number : ℕ → Bytes → ℕ → Option (ℕ × ℕ)
  decode_number bits encoded offset =
      decode_uint256 b encoded offset >>= λ word. some (b.narrow bits word.0, word.1)

  -- `ParamUIntN::decode`.
  unfoldable pub decode_uint_n : ℕ → Bytes → ℕ → Option (ℕ × ℕ)
  decode_uint_n bits encoded offset =
      decode_uint256 b encoded offset >>= λ word. some (set_val bits word.0, word.1)

  unfoldable pub encode : Param → Bytes
  encode (number bits val) = encode_uint256 b val
  encode (boolean val) = encode_uint256 b (if val then 1 else 0)
  encode (uint_n bits val) = encode_uint256 b val
  encode (address val) = encode_uint256 b val
  encode (byte_array val) = encode_bytes val
  encode (byte_array_fix n val) = encode_padded val
  encode (string val) = encode_string val

  unfoldable pub decode : Param → Bytes → ℕ → Option (Param × ℕ)
  decode (number bits val) encoded offset = do
    read ← decode_number bits encoded offset
    some (number bits read.0, read.1)
  decode (boolean val) encoded offset = do
    word ← decode_uint256 b encoded offset
    some (boolean (not (word.0 == 0)), word.1)
  decode (uint_n bits val) encoded offset = do
    read ← decode_uint_n bits encoded offset
    some (uint_n bits read.0, read.1)
  decode (address val) encoded offset = do
    read ← decode_uint_n 160 encoded offset
    some (address read.0, read.1)
  decode (byte_array val) encoded offset = do
    read ← decode_bytes encoded offset
    some (byte_array read.0, read.1)
  decode (byte_array_fix n val) encoded offset = do
    read ← decode_bytes_fix encoded n val offset
    some (byte_array_fix n read.0, read.1)
  decode (string val) encoded offset = do
    read ← decode_string encoded offset
    some (string read.0, read.1)
