-- ===== src/Cfxaddress/Checksum.antt =====
-- cfxaddress/checksum.cpp.
pub mod Shape
pub mod Detects
use cpp_conflux_sdk.Common.{bit_and, ◌∷◌, ◌++◌, map, Bytes, replicate, drop}
use cpp_conflux_sdk.Cfxaddress.Convert.{convert}
use cpp_conflux_sdk.Cfxaddress.Polymod.{polymod, uint64_to_bytes}
use cpp_conflux_sdk.Cfxaddress.NetworkType.{NetworkType}
use cpp_conflux_sdk.Cfxaddress.Body.{Body}

-- The prefix, the separator, the body and the template of eight zeros.
unfoldable pub checksum_input : NetworkType → Body → Bytes
checksum_input nt body =
    map (λ c. bit_and c 0x1f) nt.net_work_type_str ++ (0 ∷ (body.body ++ replicate 8 0))

unfoldable pub calc_checksum : NetworkType → Body → Bytes
calc_checksum nt body =
    let low40_bits = drop 3 (uint64_to_bytes (polymod (checksum_input nt body))) in
    convert low40_bits 8 5
