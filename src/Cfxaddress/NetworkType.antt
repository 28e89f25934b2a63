-- ===== src/Cfxaddress/NetworkType.antt =====
-- cfxaddress/network_type.cpp: a network as its textual prefix.
pub mod RoundTrip
pub mod Prefix
pub mod Decimal
use cpp_conflux_sdk.Common.Outcome.{Outcome, ok}
use cpp_conflux_sdk.Common.{
  ℕ, ◌++◌, Bytes, codes, length, take, drop, bytes_eq, not, ◌==◌, ltb, if◌then◌else◌,
}
use cpp_conflux_sdk.Cfxaddress.NetworkType.Decimal.{print_int, stoi}

pub record NetworkType : Type 0 where
  pub net_work_type_str : Bytes

abbrev pub mainnet_prefix : Bytes
mainnet_prefix = codes "cfx"

abbrev pub testnet_prefix : Bytes
testnet_prefix = codes "cfxtest"

abbrev pub mainnet_id : ℕ
mainnet_id = 1029

abbrev pub testnet_id : ℕ
testnet_id = 1

-- `NetworkType(const std::string&)` and `NetworkType(uint32_t)`.
abbrev pub of_string : Bytes → NetworkType
of_string type_str = record { net_work_type_str = type_str }

-- `sprintf(spec_net_type, "net%d", networkID)`.
unfoldable pub of_id : ℕ → NetworkType
of_id network_id =
    if network_id == mainnet_id
    then of_string mainnet_prefix
    else if network_id == testnet_id
    then of_string testnet_prefix
    else of_string (codes "net" ++ print_int network_id)

pub get_id_when_begin_with_net : Bytes → Outcome ℕ
get_id_when_begin_with_net net_type =
    if ltb (length net_type) 3
    then ok 0
    else if not (bytes_eq (take 3 net_type) (codes "net"))
    then ok 0
    else stoi (drop 3 net_type)

pub to_network_id : NetworkType → Outcome ℕ
to_network_id nt =
    if bytes_eq mainnet_prefix nt.net_work_type_str
    then ok mainnet_id
    else if bytes_eq testnet_prefix nt.net_work_type_str
    then ok testnet_id
    else get_id_when_begin_with_net nt.net_work_type_str
