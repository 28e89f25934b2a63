-- ===== src/Cfxaddress/Address.antt =====
-- cfxaddress/address.cpp: addresses from text and from bytes, and their texts.
pub mod Methods
pub mod Made
pub mod Texts
pub mod Parse
pub mod RoundTrip
pub mod Rejects
pub mod Verbose
pub mod FromHex
pub mod Misspelt
pub mod Order
pub mod Null
use cpp_conflux_sdk.Common.Outcome.{Outcome, ok, ◌>>=◌}
use cpp_conflux_sdk.Common.{
  ℕ, ◌-◌, Bool, true, false, not, ◌&&◌, ◌||◌, [], ◌∷◌, ◌++◌, List, Bytes, codes, length, take, drop,
  get_or, bytes_eq, ltb, leb, ◌==◌, if◌then◌else◌,
}
use cpp_conflux_sdk.Hex.{decode_string, encode_to_string}
use cpp_conflux_sdk.StringUtil.{tolower_string, toupper_string, split_string, starts_with}
use cpp_conflux_sdk.Cfxaddress.NetworkType
use cpp_conflux_sdk.Cfxaddress.NetworkType.{NetworkType, to_network_id}
use cpp_conflux_sdk.Cfxaddress.AddressType
use cpp_conflux_sdk.Cfxaddress.AddressType.{AddressType, calc_address_type, named}
use cpp_conflux_sdk.Cfxaddress.VersionByte.{calc_version_byte}
use cpp_conflux_sdk.Cfxaddress.Body
use cpp_conflux_sdk.Cfxaddress.Body.{Body, bits5s_to_string, to_hex_address}
use cpp_conflux_sdk.Cfxaddress.Checksum.{calc_checksum}
use cpp_conflux_sdk.Cfxaddress.Regex.{
  Regex, literal, seq, alt, times, plus, regex_match, digit_class, word_class,
}

pub record Address : Type 0 where
  pub network_type : NetworkType
  pub address_type : AddressType
  pub body : Body
  pub checksum : Bytes
  pub hex : Bytes
  pub network_id : ℕ

-- `^0x[a-f0-9]{40}$`
pub hex_pattern : Regex
hex_pattern =
    seq (literal (codes "0x"))
      (times 40 (λ c. (leb b'a' c && leb c b'f') || (leb b'0' c && leb c b'9')))

-- `(cfx|cfxtest|net\d+)`
pub network_pattern : Regex
network_pattern =
    alt (literal (codes "cfx"))
      (alt (literal (codes "cfxtest")) (seq (literal (codes "net")) (plus digit_class)))

-- `(type\.user:|type\.builtin:|type\.contract:|type\.null:|)`
pub type_pattern : Regex
type_pattern = alt (literal (codes "type.user:")) (
    alt (literal (codes "type.builtin:"))
      (alt (literal (codes "type.contract:")) (alt (literal (codes "type.null:")) (literal []))))

-- `^(cfx|cfxtest|net\d+):(type\.user:|…|)\w{42}$`
pub base32_pattern : Regex
base32_pattern =
    seq network_pattern (seq (literal (codes ":")) (seq type_pattern (times 42 word_class)))

-- `setCache`. `ToNetworkID` throws where `std::stoi` does.
pub set_cache : Address → Outcome Address
set_cache a = do
  id ← to_network_id a.network_type
  ok (record a { hex = (to_hex_address a.body).1; network_id = id })

-- `NewFromBytes`, which returns 1.
pub new_from_bytes : Address → Bytes → ℕ → Outcome (Address × ℕ)
new_from_bytes a hex_address network_id = do
  let nt = NetworkType.of_id network_id
  let b = Body.of_bytes (calc_version_byte hex_address) hex_address
  let a' = record a {
    network_type = nt;
    address_type = calc_address_type hex_address;
    body = b;
    checksum = calc_checksum nt b;
  }
  cached ← set_cache a'
  ok (cached, 1)

pub new_from_hex : Address → Bytes → ℕ → Outcome (Address × ℕ)
new_from_hex a hex_address_str network_id =
    let made = new_from_bytes a (decode_string (drop 2 hex_address_str)) network_id in
    starts_with hex_address_str (codes "0x") >>= λ prefixed. if prefixed then made else ok (a, 0)

-- The last of the parts; `split_string` returns one at least.
pub last_part : List Bytes → Bytes
last_part [] = []
last_part (p ∷ []) = p
last_part (p ∷ (q ∷ ps)) = last_part (q ∷ ps)

-- The end of `NewFromBase32`, from the checksum on.
pub check_base32 : Address → Bytes → Outcome (Address × ℕ)
check_base32 a actual_chk =
    let a' = record a { checksum = calc_checksum a.network_type a.body } in
    let cached = set_cache a' >>= λ c. ok (c, 1) in
    if bytes_eq (bits5s_to_string a'.checksum) actual_chk then cached else ok (a', 0)

-- `NewFromBase32` from the body on; `parts` are the parts of the text.
pub parse_body : Address → List Bytes → Outcome (Address × ℕ)
parse_body a parts =
    let whole = last_part parts in
    let front = length whole - 8 in
    let b = Body.of_string (take front whole) in
    let t = calc_address_type (to_hex_address b).1 in
    let a' = record a { body = b; address_type = t } in
    let checked = check_base32 a' (drop front whole) in
    if ltb (length whole) 8
    then ok (a, 0)
    else if length parts == 3
        && not (bytes_eq (tolower_string (get_or parts 1 [])) (AddressType.string t))
    then ok (a', 0)
    else checked

-- `NewFromBase32`: the object and the result, which is 0 after each early return.
pub new_from_base32 : Address → Bytes → Outcome (Address × ℕ)
new_from_base32 a base32_str =
    let parts = split_string (tolower_string base32_str) b':' in
    let a' = record a { network_type = NetworkType.of_string (get_or parts 0 []) } in
    let parsed = parse_body a' parts in
    if not (bytes_eq (tolower_string base32_str) base32_str)
      && not (bytes_eq (toupper_string base32_str) base32_str)
    then ok (a, 0)
    else if ltb (length parts) 2 || ltb 3 (length parts)
    then ok (a, 0)
    else parsed

pub marked_invalid : Address → Address
marked_invalid a = record a { address_type = named AddressType.invalid }

-- What `New` does behind `NewFromBase32`, by its result.
pub after_base32 : Bytes → ℕ → Address × ℕ → Outcome Address
after_base32 lower network_id (a, ret_code) =
    let again = new_from_hex a lower network_id >>= λ r. ok r.0 in
    let compared =
      to_network_id a.network_type >>= λ id. if not (id == network_id) then again else ok a in
    if ret_code == 0 then ok (marked_invalid a) else if network_id == 0 then ok a else compared

-- `New`.
pub new : Address → Bytes → ℕ → Outcome Address
new a base32_or_hex network_id =
    let lower = tolower_string base32_or_hex in
    let from_hex = new_from_hex a lower network_id >>= λ r. ok r.0 in
    let from_base32 = new_from_base32 a lower >>= after_base32 lower network_id in
    if regex_match lower hex_pattern
    then from_hex
    else if regex_match lower base32_pattern
    then from_base32
    else ok (marked_invalid a)

-- The members as the constructor finds them; `networkID` has no initial value, so it is a parameter.
pub blank : ℕ → ℕ → Address
blank uninitialised network_id = record {
  network_type = NetworkType.of_id network_id;
  address_type = named AddressType.invalid;
  body = record { body = [] };
  checksum = [];
  hex = [];
  network_id = uninitialised;
}

-- `Address(const std::string&, uint32_t)`.
pub construct : ℕ → Bytes → ℕ → Outcome Address
construct uninitialised base32_or_hex network_id =
    new (blank uninitialised network_id) base32_or_hex network_id
