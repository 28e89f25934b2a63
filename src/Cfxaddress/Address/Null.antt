-- ===== src/Cfxaddress/Address/Null.antt =====
-- The null addresses.
use cpp_conflux_sdk.Common.Outcome.{ok}
use cpp_conflux_sdk.Common.{ℕ, ◌^◌, ◌<◌, ◌≡◌, refl, true, arith, Bytes, codes, replicate}
use cpp_conflux_sdk.Hex.{
  decode_string, decode, decode_loop, from_hex_char, join_digits, encode_to_string, high_digit,
  low_digit,
}
use cpp_conflux_sdk.Cfxaddress.AddressType.{calc_address_type, null_addr}
use cpp_conflux_sdk.Cfxaddress.Address.{blank, construct}
use cpp_conflux_sdk.Cfxaddress.Address.Methods.{to_hex, get_hex_address, is_valid, null_address}
use cpp_conflux_sdk.Cfxaddress.Address.Made.{address_of, IsHex20}
use cpp_conflux_sdk.Cfxaddress.Address.FromHex.{new-get_hex_address}

abbrev pub zeros : Bytes
zeros = replicate 20 0

zeros-IsHex20 : IsHex20 zeros
zeros-IsHex20 = ground arith

zeros_text :
    (id : ℕ)
    → get_hex_address (address_of zeros id) ≡ codes "0x0000000000000000000000000000000000000000"
unfolding get_hex_address to_hex address_of encode_to_string high_digit low_digit
zeros_text id = refl

null_is_valid : (id : ℕ) → is_valid (address_of zeros id) ≡ true
unfolding is_valid address_of calc_address_type null_addr decode_string decode decode_loop
    from_hex_char join_digits
null_is_valid id = refl

-- The null address of a network with a 32-bit id is the valid address of twenty zero bytes on that
-- network, whatever the object's memory held.
pub null_address_lem :
    (uninitialised id : ℕ)
    → id < 2 ^ 32
    → (null_address uninitialised id ≡ ok (address_of zeros id))
      × (is_valid (address_of zeros id) ≡ true)
unfolding null_address construct
null_address_lem uninitialised id small =
    let made = new-get_hex_address (blank uninitialised id) zeros id zeros-IsHex20 small in
    (rw (zeros_text id) at made, null_is_valid id)
