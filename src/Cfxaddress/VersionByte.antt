-- ===== src/Cfxaddress/VersionByte.antt =====
-- cfxaddress/version_byte.h: the first byte of the payload.
pub mod RoundTrip
use cpp_conflux_sdk.Common.{
  ℕ, ◌*◌, ◌/◌, ◌%◌, ◌^◌, bit_and, bit_or, List, [], ◌∷◌, Bytes, length, ◌==◌, if◌then◌else◌,
}

pub record VersionByte : Type 0 where
  pub type_bits : ℕ
  pub address_type : ℕ
  pub size_bits : ℕ

-- `VersionByte(uint8_t)`, and `NewVersionByte` with the same body.
pub of_byte : ℕ → VersionByte
of_byte b = record {
  type_bits = b / 2 ^ 7;
  address_type = bit_and b 0x7f / 2 ^ 3;
  size_bits = bit_and b 0x0f;
}

unfoldable pub to_byte : VersionByte → ℕ
to_byte v =
    let top = bit_and (v.type_bits * 2 ^ 7) 0x80 in
    let middle = bit_or top (bit_and v.address_type 0x0f * 2 ^ 3) % 2 ^ 8 in
    bit_or middle v.size_bits

abbrev pub hash_size_to_bits : List (ℕ × ℕ)
hash_size_to_bits =
    (160, 0)
    ∷ ((192, 1) ∷ ((224, 2) ∷ ((256, 3) ∷ ((320, 4) ∷ ((384, 5) ∷ ((448, 6) ∷ ((512, 7) ∷ [])))))))

-- `operator[]` of `std::map`: a key that is not there is entered with the value 0.
unfoldable pub lookup_or_zero : ℕ → List (ℕ × ℕ) → ℕ
lookup_or_zero k [] = 0
lookup_or_zero k ((j, v) ∷ m) = if j == k then v else lookup_or_zero k m

unfoldable pub calc_version_byte : Bytes → VersionByte
calc_version_byte hex_address = record {
  type_bits = 0;
  address_type = 0;
  size_bits = lookup_or_zero (length hex_address * 8) hash_size_to_bits;
}
