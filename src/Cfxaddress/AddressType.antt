-- ===== src/Cfxaddress/AddressType.antt =====
-- cfxaddress/address_type.cpp: the kind of an address, kept as its name.
pub mod Kinds
use cpp_conflux_sdk.Common.{ℕ, ◌++◌, bit_and, Bytes, codes, get_or, bytes_eq, ◌==◌, if◌then◌else◌}
use cpp_conflux_sdk.Hex.{decode_string}

pub record AddressType : Type 0 where
  pub address_type_str : Bytes

abbrev pub builtin : Bytes
builtin = codes "builtin"

abbrev pub user : Bytes
user = codes "user"

abbrev pub contract : Bytes
contract = codes "contract"

abbrev pub null : Bytes
null = codes "null"

abbrev pub invalid : Bytes
invalid = codes "invalid"

abbrev pub named : Bytes → AddressType
named s = record { address_type_str = s }

-- `nullAddr`: twenty zero bytes, written as hexadecimal text in the source.
unfoldable pub null_addr : Bytes
null_addr = decode_string (codes "0000000000000000000000000000000000000000")

-- `hexAddress[0]` of an empty vector is undefined; all calls pass 20 bytes or more.
unfoldable pub calc_address_type : Bytes → AddressType
calc_address_type hex_address =
    let addr_type_bits = bit_and (get_or hex_address 0 0) 0xf0 in
    if bytes_eq hex_address null_addr
    then named null
    else if addr_type_bits == 0x00
    then named builtin
    else if addr_type_bits == 0x10
    then named user
    else if addr_type_bits == 0x80
    then named contract
    else named invalid

unfoldable pub to_byte : AddressType → ℕ
to_byte t =
    if bytes_eq t.address_type_str builtin
    then 0x00
    else if bytes_eq t.address_type_str user
    then 0x10
    else if bytes_eq t.address_type_str contract
    then 0x80
    else if bytes_eq t.address_type_str null
    then 0x00
    else 0x00

unfoldable pub string : AddressType → Bytes
string t = codes "type." ++ t.address_type_str
