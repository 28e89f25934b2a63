-- ===== src/Cfxaddress/AddressType/Kinds.antt =====
-- The kinds of address that `CalcAddressType` tells apart.
use cpp_conflux_sdk.Common.{
  ℕ, ◌≡◌, ◌≢◌, refl, sym, ap, ◌∙◌, true, ◌⊎◌, inl, inr, Bool-cases, arith, Bytes, bit_and, get_or,
  bytes_eq, bytes_eq→eq, ◌==◌,
}
use cpp_conflux_sdk.Hex.{decode_string, decode, decode_loop, from_hex_char, join_digits}
use cpp_conflux_sdk.Cfxaddress.AddressType.{
  AddressType, named, null, builtin, user, contract, invalid, null_addr, calc_address_type, to_byte,
}

-- A type with a name, and the high half of the first byte that belongs to it.
pub data Known (high : ℕ) : AddressType → Type 0 where
  is_null : high ≡ 0x00 → Known high (named null)
  is_builtin : high ≡ 0x00 → Known high (named builtin)
  is_user : high ≡ 0x10 → Known high (named user)
  is_contract : high ≡ 0x80 → Known high (named contract)

abbrev pub high_half : Bytes → ℕ
high_half hex = bit_and (get_or hex 0 0) 0xf0

null_high : (hex : Bytes) → bytes_eq hex null_addr ≡ true → high_half hex ≡ 0x00
null_high hex h =
    ap high_half (bytes_eq→eq hex null_addr h)
    ∙ unfold null_addr decode_string decode decode_loop from_hex_char join_digits in refl

pub calc_address_type-cases :
    (hex : Bytes)
    → Known (high_half hex) (calc_address_type hex) ⊎ (calc_address_type hex ≡ named invalid)
unfolding calc_address_type
calc_address_type-cases hex = elim (Bool-cases (bytes_eq hex null_addr)) [
  | inl n ↦ rw n (inl (is_null (null_high hex n)))
  | inr x ↦ rw x (elim (Bool-cases (high_half hex == 0x00)) [
    | inl b ↦ rw b (inl (is_builtin (ground arith)))
    | inr y ↦ rw y (elim (Bool-cases (high_half hex == 0x10)) [
      | inl u ↦ rw u (inl (is_user (ground arith)))
      | inr z ↦ rw z (elim (Bool-cases (high_half hex == 0x80)) [
        | inl c ↦ rw c (inl (is_contract (ground arith)))
        | inr w ↦ rw w (inr refl)
      ])
    ])
  ])
]

Known-to_byte : {high : ℕ} {t : AddressType} → Known high t → to_byte t ≡ high
unfolding to_byte
Known-to_byte (is_null e) = sym e
Known-to_byte (is_builtin e) = sym e
Known-to_byte (is_user e) = sym e
Known-to_byte (is_contract e) = sym e

-- The byte of a type is the high half of the address's first byte, for every address whose type is
-- not `invalid`.
pub to_byte-calc_address_type :
    (hex : Bytes)
    → calc_address_type hex ≢ named invalid
    → to_byte (calc_address_type hex) ≡ bit_and (get_or hex 0 0) 0xf0
to_byte-calc_address_type hex ne = elim (calc_address_type-cases hex) [
  | inl known ↦ Known-to_byte known
  | inr bad ↦ absurd (ne bad)
]
