-- ===== src/Abi/Function.antt =====
-- libcfxcore/abi/Function.cpp: a call is the first four bytes of the hash of the function's type and
-- then its parameters. The hash is a parameter.
pub mod Calls
use cpp_conflux_sdk.Common.{
  ℕ, ◌+◌, ◌-◌, Bool, Option, none, some, List, [], ◌∷◌, ◌++◌, Bytes, take, replicate, bytes_eq, not,
  if◌then◌else◌,
}
use cpp_conflux_sdk.Abi.{Boost, ◌>>=◌}
use cpp_conflux_sdk.Abi.Param.{Param, decode_bytes_fix}
use cpp_conflux_sdk.Abi.ParamSet.{ParamSet, set_type, encode_set, decode_set}

pub record Function : Type 0 where
  pub name : Bytes
  pub in_params : ParamSet
  pub out_params : ParamSet

pub function_type : Function → Bytes
function_type f = f.name ++ set_type f.in_params

module _ (keccak : Bytes → Bytes) where
  -- `getSignature(func_name)`, and of the function's own type.
  unfoldable pub signature_of_name : Bytes → Bytes
  signature_of_name func_name = take 4 (keccak func_name)

  unfoldable pub get_signature : Function → Bytes
  get_signature f = take 4 (keccak (function_type f))

  module _ (b : Boost) where
    unfoldable pub encode_call : Function → Bytes
    encode_call f = get_signature f ++ encode_set b f.in_params

    unfoldable pub encode_call_named : Function → Bytes → Bytes
    encode_call_named f func_name = signature_of_name func_name ++ encode_set b f.in_params

    unfoldable pub decode_output : Function → Bytes → ℕ → Option (Function × ℕ)
    decode_output f encoded offset = decode_set b f.out_params encoded offset >>= λ read.
        some (record f { out_params = read.0 }, read.1)

    -- The four bytes are not padded, so the offset goes back behind them.
    unfoldable pub decode_input : Function → Bytes → ℕ → Option (Function × ℕ)
    decode_input f encoded offset = decode_bytes_fix encoded 4 (replicate 4 0) offset >>= λ hash.
        let params = decode_set b f.in_params encoded (hash.1 - 32 + 4) >>= λ read.
        some (record f { in_params = read.0 }, read.1) in
        if not (bytes_eq hash.0 (get_signature f)) then none else params
