-- ===== src/Cfxaddress/Address/Methods.antt =====
-- cfxaddress/address.cpp: what an address answers.
use cpp_conflux_sdk.Common.{
  ℕ, Bool, true, false, not, ◌&&◌, ◌||◌, [], ◌∷◌, ◌++◌, Bytes, codes, take, bytes_eq, ltb, ◌==◌,
  if◌then◌else◌,
}
use cpp_conflux_sdk.Common.Outcome.{Outcome, ok, ◌>>=◌}
use cpp_conflux_sdk.Hex.{encode_to_string}
use cpp_conflux_sdk.Cfxaddress.NetworkType.{to_network_id, testnet_id, mainnet_id}
use cpp_conflux_sdk.Cfxaddress.AddressType
use cpp_conflux_sdk.Cfxaddress.Body
use cpp_conflux_sdk.Cfxaddress.Body.{bits5s_to_string}
use cpp_conflux_sdk.Cfxaddress.Address.{Address, construct, marked_invalid}

pub get_network_id : Address → Outcome ℕ
get_network_id a = to_network_id a.network_type

-- `ToHex`: the text and the cached id.
unfoldable pub to_hex : Address → Bytes × ℕ
to_hex a = (encode_to_string a.hex, a.network_id)

unfoldable pub get_hex_address : Address → Bytes
get_hex_address a = codes "0x" ++ (to_hex a).0

unfoldable pub is_valid : Address → Bool
is_valid a =
    let t = a.address_type.address_type_str in
    bytes_eq t AddressType.null
    || (bytes_eq t AddressType.builtin
        || (bytes_eq t AddressType.user || bytes_eq t AddressType.contract))

-- `operator==`: the bodies that it compares are both `rv.body`.
unfoldable pub equals : Address → Address → Bool
equals a rv =
    if not (bytes_eq rv.network_type.net_work_type_str a.network_type.net_work_type_str)
    then false
    else if not (bytes_eq (AddressType.string rv.address_type) (AddressType.string a.address_type))
    then false
    else if not (bytes_eq rv.body.body rv.body.body)
    then false
    else if not (bytes_eq rv.checksum a.checksum)
    then false
    else true

-- The texts are written by `sprintf` into 128 characters.
unfoldable pub get_base32_address : Address → Bytes
get_base32_address a =
    a.network_type.net_work_type_str ++ (b':' ∷ (Body.string a.body ++ bits5s_to_string a.checksum))

unfoldable pub get_verbose_base32_address : Address → Bytes
get_verbose_base32_address a =
    a.network_type.net_work_type_str
    ++ (b':'
        ∷ (AddressType.string a.address_type
            ++ (b':' ∷ (Body.string a.body ++ bits5s_to_string a.checksum))))

-- `operator<` of two strings.
unfoldable pub text_less : Bytes → Bytes → Bool
text_less s [] = false
text_less [] (d ∷ t) = true
text_less (c ∷ s) (d ∷ t) = ltb c d || (c == d && text_less s t)

unfoldable pub less : Address → Address → Bool
less a rv = text_less (get_verbose_base32_address a) (get_verbose_base32_address rv)

-- `toEthCommonAddr`, the first twenty bytes of the cache; with fewer, the source reads past its end.
pub to_eth_common_addr : Address → Bytes
to_eth_common_addr a = take 20 a.hex

-- `NullAddress(networkID)`; the two other null addresses are its cases for two networks.
unfoldable pub null_address : ℕ → ℕ → Outcome Address
null_address uninitialised network_id =
    construct uninitialised (codes "0x0000000000000000000000000000000000000000") network_id

pub testnet_null_address : ℕ → Outcome Address
testnet_null_address uninitialised = null_address uninitialised testnet_id

pub mainnet_null_address : ℕ → Outcome Address
mainnet_null_address uninitialised = null_address uninitialised mainnet_id

-- `InvaildAddress`: the default address, which is the null address of the test network, marked.
pub invaild_address : ℕ → Outcome Address
invaild_address uninitialised = do
  addr ← testnet_null_address uninitialised
  ok (marked_invalid addr)
