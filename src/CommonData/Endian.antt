-- ===== src/CommonData/Endian.antt =====
-- libdevcore/CommonData.h: numbers as big-endian bytes. An unsigned type of `w` bits and the
-- unbounded `bigint` are natural numbers; a shift to the right is a division.
pub mod RoundTrip
pub mod Compact
use cpp_conflux_sdk.Common.{
  ℕ, zero, suc, ◌*◌, ◌/◌, ◌%◌, ◌^◌, bit_and, bit_or, max, [], ◌∷◌, ◌++◌, Bytes, ◌==◌, if◌then◌else◌,
}

-- `toBigEndian(_val, o_out)`, for the size of `o_out`: the loop writes from the last byte on.
unfoldable pub to_big_endian : ℕ → ℕ → Bytes
to_big_endian zero val = []
to_big_endian (suc i) val = to_big_endian i (val / 2 ^ 8) ++ (bit_and val 0xff ∷ [])

-- The loop of `fromBigEndian`, over a type of `w` bits.
unfoldable pub from_big_endian_loop : ℕ → Bytes → ℕ → ℕ
from_big_endian_loop w [] ret = ret
from_big_endian_loop w (i ∷ bytes) ret =
    from_big_endian_loop w bytes (bit_or (ret * 2 ^ 8) i % 2 ^ w)

unfoldable pub from_big_endian : ℕ → Bytes → ℕ
from_big_endian w bytes = from_big_endian_loop w bytes 0

-- The loop that counts bytes; each round makes the number smaller.
unfoldable pub count_bytes : ℕ → ℕ → ℕ
count_bytes zero i = 0
count_bytes (suc fuel) i = let more = count_bytes fuel (i / 2 ^ 8) in if i == 0 then 0 else suc more

unfoldable pub bytes_required : ℕ → ℕ
bytes_required i = count_bytes i i

-- `toCompactBigEndian(_val, _min)`.
unfoldable pub to_compact_big_endian : ℕ → ℕ → Bytes
to_compact_big_endian val least = to_big_endian (max least (bytes_required val)) val
