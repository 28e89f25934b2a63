-- ===== src/Examples/Hashes.antt =====
-- Hashes of a fixed size at concrete values.
use cpp_conflux_sdk.Common.{
  ◌+◌, ◌*◌, ◌%◌, ◌^◌, ◌≡◌, true, false, refl, List, [], ◌∷◌, ◌++◌, arith, Bytes, codes, length,
  replicate, ltb, All,
}
use cpp_conflux_sdk.CommonData.Endian.{from_big_endian}
use cpp_conflux_sdk.FixedHash.{
  less, increment, carry, to_uuid, from_uuid, contains_string, copy_left, copy_right, of_bytes,
  of_hash, align_left, align_right, fail_if_different, is_set, hash_not, secure_or, secure_and,
  hash_xor, zip_with, static_log2, first_bit_set, first_bit_of, right160,
}
use cpp_conflux_sdk.FixedHash.Order.{less-from_big_endian, from_big_endian-increment}
use cpp_conflux_sdk.FixedHash.Uuid.{plain, from_uuid-to_uuid}
use cpp_conflux_sdk.FixedHash.Bloom.{added, contains_string-added}

abbrev low : Bytes
low = 1 ∷ (0xff ∷ (0xff ∷ []))

abbrev high : Bytes
high = 2 ∷ (0 ∷ (7 ∷ []))

less-from_big_endian_example :
    less low high
    ≡ ltb (from_big_endian (8 * length low) low) (from_big_endian (8 * length low) high)
less-from_big_endian_example = less-from_big_endian low high (ground arith) (ground arith) refl

from_big_endian-increment_example :
    from_big_endian (8 * length low) (increment low)
    ≡ (from_big_endian (8 * length low) low + 1) % 2 ^ (8 * length low)
from_big_endian-increment_example = from_big_endian-increment low (ground arith)

abbrev identifier : Bytes
identifier =
    0x12
    ∷ (0x3e
        ∷ (0x45
            ∷ (0x67
                ∷ (0xe8
                    ∷ (0x9b
                        ∷ (0x12
                            ∷ (0xd3
                                ∷ (0xa4
                                    ∷ (0x56
                                        ∷ (0x42
                                            ∷ (0x66 ∷ (0x14 ∷ (0x17 ∷ (0x40 ∷ (0 ∷ [])))))))))))))))

from_uuid-to_uuid_example : from_uuid plain (to_uuid identifier) ≡ identifier
from_uuid-to_uuid_example = from_uuid-to_uuid plain identifier (λ s. refl) (ground arith) refl

-- A hash of 32 bytes that begins with those of the string.
abbrev toy_hash : Bytes → Bytes
toy_hash d = of_bytes 32 d align_left

abbrev topics : List Bytes
topics = codes "Transfer" ∷ (codes "Approval" ∷ [])

contains_string-added_example :
    All (λ s. contains_string toy_hash (added toy_hash (replicate 256 0) topics) s ≡ true) topics
contains_string-added_example = contains_string-added toy_hash (replicate 256 0) topics refl

carried : increment low ≡ 2 ∷ (0 ∷ (0 ∷ []))
unfolding increment carry
carried = refl

shorter :
    (of_bytes 2 low align_left ≡ 1 ∷ (0xff ∷ []))
    × (of_bytes 2 low align_right ≡ 0xff ∷ (0xff ∷ []))
    × (of_bytes 2 low fail_if_different ≡ 0 ∷ (0 ∷ []))
    × (of_hash 4 low align_right ≡ 0 ∷ low)
unfolding of_bytes of_hash copy_left copy_right
shorter = (refl, refl, refl, refl)

-- `|=` of a `SecureFixedHash` clears what both have set.
cleared : secure_or low low ≡ 0 ∷ (0 ∷ (0 ∷ []))
unfolding secure_or hash_xor zip_with
cleared = refl

-- So does `&=`.
cleared_too : secure_and low low ≡ 0 ∷ (0 ∷ (0 ∷ []))
unfolding secure_and hash_xor zip_with
cleared_too = refl

complement : (hash_not low ≡ 254 ∷ (0 ∷ (0 ∷ []))) × (is_set low ≡ true) × (is_set (0 ∷ []) ≡ false)
unfolding hash_not is_set
complement = (refl, refl, refl)

logs :
    (static_log2 2048 2048 ≡ 11)
    × (first_bit_set low 0 ≡ 7)
    × (right160 (replicate 12 1 ++ low) ≡ low)
unfolding static_log2 first_bit_set first_bit_of right160
logs = (refl, refl, refl)
