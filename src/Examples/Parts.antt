-- ===== src/Examples/Parts.antt =====
-- The parts of an address at concrete values.
use cpp_conflux_sdk.Common.{◌≡◌, ◌≢◌, refl, ap, sym, ◌∙◌, [], ◌∷◌, arith, Bytes, get_or}
use cpp_conflux_sdk.Hex.{decode_string, decode, decode_loop, from_hex_char, join_digits}
use cpp_conflux_sdk.Cfxaddress.NetworkType
use cpp_conflux_sdk.Cfxaddress.NetworkType.{to_network_id}
use cpp_conflux_sdk.Cfxaddress.AddressType
use cpp_conflux_sdk.Cfxaddress.AddressType.{calc_address_type, null_addr, named}
use cpp_conflux_sdk.Cfxaddress.Body.{Body}
use cpp_conflux_sdk.Cfxaddress.Checksum.{calc_checksum}
use cpp_conflux_sdk.Cfxaddress.Checksum.Detects.{with_symbol, calc_checksum_detects}

abbrev groups : Bytes
groups = 31 ∷ (0 ∷ (17 ∷ []))

abbrev some_body : Body
some_body = record { body = groups }

contract_kind : calc_address_type (0x82 ∷ (1 ∷ [])) ≡ named AddressType.contract
unfolding calc_address_type null_addr decode_string decode decode_loop from_hex_char join_digits
contract_kind = refl

contract_is_named : calc_address_type (0x82 ∷ (1 ∷ [])) ≢ named AddressType.invalid
contract_is_named e =
    let names : AddressType.contract ≡ AddressType.invalid =
      ap (λ (t : AddressType.AddressType). t.address_type_str) (sym contract_kind ∙ e) in
    let initials : get_or AddressType.contract 0 0 ≡ get_or AddressType.invalid 0 0 =
      ap (λ (t : Bytes). get_or t 0 0) names in
    omega arith

calc_checksum_detects_example :
    calc_checksum (NetworkType.of_id 1) (with_symbol (3 ∷ []) 7 groups)
    ≢ calc_checksum (NetworkType.of_id 1) (with_symbol (3 ∷ []) 8 groups)
calc_checksum_detects_example =
    calc_checksum_detects (NetworkType.of_id 1) (3 ∷ []) groups 7 8 (ground arith) (ground arith)
      (omega arith) (omega arith) (omega arith)
