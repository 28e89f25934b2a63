-- ===== src/Cfxaddress/NetworkType/RoundTrip.antt =====
-- A network's id against its prefix.
use cpp_conflux_sdk.Common.Outcome.{ok}
use cpp_conflux_sdk.Common.{
  ℕ, ◌^◌, ◌<◌, ◌≡◌, ◌∙◌, inl, inr, Bool-cases, ◌++◌, arith, Bytes, codes, ◌==◌,
}
use cpp_conflux_sdk.Cfxaddress.NetworkType.Decimal.{print_int, stoi}
use cpp_conflux_sdk.Cfxaddress.NetworkType.Decimal.RoundTrip.{stoi-print_int}
use cpp_conflux_sdk.Cfxaddress.NetworkType.{
  mainnet_id, testnet_id, of_string, of_id, get_id_when_begin_with_net, to_network_id,
}

numbered : (s : Bytes) → to_network_id (of_string (codes "net" ++ s)) ≡ stoi s
unfolding to_network_id get_id_when_begin_with_net
numbered s = ground arith

-- The network that is made of an id has that id, whatever 32-bit number it is.
pub to_network_id-of_id : (id : ℕ) → id < 2 ^ 32 → to_network_id (of_id id) ≡ ok id
unfolding of_id
to_network_id-of_id id h = elim (Bool-cases (id == mainnet_id)) [
  | inl main ↦ rw main (unfold to_network_id in ground arith)
  | inr other ↦ rw other (elim (Bool-cases (id == testnet_id)) [
    | inl test ↦ rw test (unfold to_network_id in ground arith)
    | inr own ↦ rw own (numbered (print_int id) ∙ stoi-print_int id h)
  ])
]
