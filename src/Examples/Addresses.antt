-- ===== src/Examples/Addresses.antt =====
-- Addresses made of twenty bytes, on the main network and on a network with a number.
use cpp_conflux_sdk.Common.Outcome.{ok}
use cpp_conflux_sdk.Common.{
  ◌≡◌, ◌≢◌, ◌++◌, ap, get_or, drop, refl, true, false, [], ◌∷◌, arith, Bytes, codes,
}
use cpp_conflux_sdk.Hex.{decode_string, decode, decode_loop, from_hex_char, join_digits}
use cpp_conflux_sdk.StringUtil.{tolower}
use cpp_conflux_sdk.Cfxaddress.NetworkType
use cpp_conflux_sdk.Cfxaddress.AddressType
use cpp_conflux_sdk.Cfxaddress.AddressType.{null_addr, calc_address_type, named}
use cpp_conflux_sdk.Cfxaddress.VersionByte
use cpp_conflux_sdk.Cfxaddress.VersionByte.{calc_version_byte, lookup_or_zero}
use cpp_conflux_sdk.Cfxaddress.Body
use cpp_conflux_sdk.Cfxaddress.Body.{Body, bits5s_to_string}
use cpp_conflux_sdk.Cfxaddress.Convert.{emit, drain, absorb, convert_loop, finish, convert}
use cpp_conflux_sdk.Cfxaddress.Polymod.{
  xor_if, reduce, step, polymod_loop, polymod, low_bytes, uint64_to_bytes,
}
use cpp_conflux_sdk.Cfxaddress.Checksum.{checksum_input, calc_checksum}
use cpp_conflux_sdk.Cfxaddress.Address.{Address, blank, new}
use cpp_conflux_sdk.Cfxaddress.Address.Methods.{
  get_base32_address, get_verbose_base32_address, get_hex_address, is_valid,
}
use cpp_conflux_sdk.Cfxaddress.Address.Made.{payload, address_of, IsHex20}
use cpp_conflux_sdk.Cfxaddress.Address.Texts.{payload_symbols, checksum_symbols, IsCheck}
use cpp_conflux_sdk.Cfxaddress.Address.RoundTrip.{prefix_of, new-get_base32_address}
use cpp_conflux_sdk.Cfxaddress.Address.Verbose.{new-get_verbose_base32_address}
use cpp_conflux_sdk.Cfxaddress.Address.Misspelt.{new_misspelt}
use cpp_conflux_sdk.Cfxaddress.Address.FromHex.{new-get_hex_address}
use cpp_conflux_sdk.Cfxaddress.Address.Rejects.{new_bad_checksum}

-- 0x1a2f80341409639ea6a35bbcab8299066109aa55
abbrev user_bytes : Bytes
user_bytes =
    0x1a
    ∷ (0x2f
        ∷ (0x80
            ∷ (0x34
                ∷ (0x14
                    ∷ (0x09
                        ∷ (0x63
                            ∷ (0x9e
                                ∷ (0xa6
                                    ∷ (0xa3
                                        ∷ (0x5b
                                            ∷ (0xbc
                                                ∷ (0xab
                                                    ∷ (0x82
                                                        ∷ (0x99
                                                            ∷ (0x06
                                                            ∷ (0x61
                                                            ∷ (0x09
                                                            ∷ (0xaa ∷ (0x55 ∷ [])))))))))))))))))))

user_bytes-IsHex20 : IsHex20 user_bytes
user_bytes-IsHex20 = ground arith

base32_text :
    get_base32_address (address_of user_bytes 1029)
    ≡ codes "cfx:aarc9abycue0hhzgyrr53m6cxedgccrmmyybjgh4xg"
unfolding get_base32_address address_of NetworkType.of_id Body.string bits5s_to_string payload
    calc_version_byte lookup_or_zero VersionByte.to_byte Body.of_bytes convert convert_loop absorb
    drain emit finish calc_checksum checksum_input polymod polymod_loop step reduce xor_if
    uint64_to_bytes low_bytes
base32_text = refl

user_type : calc_address_type user_bytes ≡ named AddressType.user
unfolding calc_address_type null_addr decode_string decode decode_loop from_hex_char join_digits
user_type = refl

user_is_valid : is_valid (address_of user_bytes 1) ≡ true
unfolding is_valid address_of calc_address_type null_addr decode_string decode decode_loop
    from_hex_char join_digits
user_is_valid = refl

new-get_base32_address_example :
    new (blank 0 1) (get_base32_address (address_of user_bytes 1029)) 7
    ≡ ok (address_of user_bytes 1029)
new-get_base32_address_example =
    new-get_base32_address (blank 0 1) user_bytes 1029 7 user_bytes-IsHex20 (omega arith)

new-get_verbose_base32_address_example :
    new (blank 0 1029) (get_verbose_base32_address (address_of user_bytes 1)) 1
    ≡ ok (address_of user_bytes 1)
new-get_verbose_base32_address_example =
    new-get_verbose_base32_address (blank 0 1029) user_bytes 1 1 user_bytes-IsHex20 (omega arith)
      user_is_valid

new-get_hex_address_example :
    new (blank 0 0) (get_hex_address (address_of user_bytes 4294967295)) 4294967295
    ≡ ok (address_of user_bytes 4294967295)
new-get_hex_address_example =
    new-get_hex_address (blank 0 0) user_bytes 4294967295 user_bytes-IsHex20 (omega arith)

-- Texts that are refused.
check_text : checksum_symbols user_bytes 1029 ≡ codes "ybjgh4xg"
unfolding checksum_symbols NetworkType.of_id bits5s_to_string payload calc_version_byte
    lookup_or_zero VersionByte.to_byte Body.of_bytes convert convert_loop absorb drain emit finish
    calc_checksum checksum_input polymod polymod_loop step reduce xor_if uint64_to_bytes low_bytes
check_text = refl

wrong_check : codes "ybjgh4xa" ≢ checksum_symbols user_bytes 1029
wrong_check = rw check_text (λ e.
    let last : get_or (codes "ybjgh4xa") 7 0 ≡ get_or (codes "ybjgh4xg") 7 0 =
      ap (λ (t : Bytes). get_or t 7 0) e in
    omega arith)

wrong_IsCheck : IsCheck (codes "ybjgh4xa")
wrong_IsCheck = unfold tolower in ground arith

new_bad_checksum_example :
    (x : Address) × (new
        (blank 0 1)
        (prefix_of 1029 ++ (b':' ∷ (payload_symbols user_bytes ++ codes "ybjgh4xa")))
        1029
      ≡ ok x)
    × (is_valid x ≡ false)
new_bad_checksum_example =
    new_bad_checksum (blank 0 1) user_bytes (codes "ybjgh4xa") 1029 1029 user_bytes-IsHex20
      wrong_IsCheck (omega arith) wrong_check

no_body : Body
no_body = record { body = [] }

-- The third symbol of the payload, `r`, replaced by `s`.
abbrev behind : Bytes
behind = drop 3 (payload user_bytes).body

third_is_r : (payload user_bytes).body ≡ (0 ∷ (0 ∷ [])) ++ (13 ∷ behind)
unfolding payload calc_version_byte lookup_or_zero VersionByte.to_byte Body.of_bytes convert
    convert_loop absorb drain emit finish
third_is_r = refl

new_misspelt_example :
    (x : Address) × (new
        (blank 0 1)
        (prefix_of 1029
          ++ (b':'
              ∷ (bits5s_to_string ((0 ∷ (0 ∷ [])) ++ (14 ∷ behind))
                  ++ checksum_symbols user_bytes 1029)))
        1029
      ≡ ok x)
    × (is_valid x ≡ false)
new_misspelt_example =
    new_misspelt (blank 0 1) user_bytes (0 ∷ (0 ∷ [])) behind 13 14 1029 1029 user_bytes-IsHex20
      (omega arith) third_is_r (omega arith) (omega arith)
