-- ===== src/Abi/ParamSet.antt =====
-- libcfxcore/abi/Parameters.cpp: the parameters of a call, in order. A dynamic parameter has an index
-- in the head of the coding and its bytes behind the head. None of the parameters here is a fixed array.
pub mod Layout
pub mod Indices
pub mod RoundTrip
use cpp_conflux_sdk.Common.{
  ℕ, zero, suc, ◌+◌, Bool, true, false, ◌||◌, Option, none, some, List, [], ◌∷◌, ◌++◌, Bytes, codes,
  length, ltb, if◌then◌else◌,
}
use cpp_conflux_sdk.Abi.{
  Boost, encoded_int_size, padded_to32, encode_uint256, decode_uint256, ◌>>=◌,
}
use cpp_conflux_sdk.Abi.Param.{Param, is_dynamic, get_size, get_type, encode, decode}

abbrev pub ParamSet : Type 0
ParamSet = List Param

-- `addParam` of a parameter that is not null, with its index.
unfoldable pub add_param : ParamSet → Param → ParamSet × ℕ
add_param params param = (params ++ (param ∷ []), length params)

unfoldable pub add_params : ParamSet → List Param → ParamSet
add_params params [] = params
add_params params (p ∷ ps) = add_params (add_param params p).0 ps

-- `getParam`, for an index that is not negative.
unfoldable pub get_param : ParamSet → ℕ → Option Param
get_param [] i = none
get_param (p ∷ params) zero = some p
get_param (p ∷ params) (suc i) = get_param params i

-- `getParamUnsafe`: the first parameter stands in for one that is not there.
unfoldable pub get_param_unsafe : ParamSet → ℕ → Option Param
get_param_unsafe params i = elim (get_param params i) [
  | some p ↦ some p
  | none ↦ get_param params 0
]

-- The loop of `getType`, behind the first parameter.
unfoldable pub more_types : ParamSet → Bytes
more_types [] = []
more_types (p ∷ params) = codes "," ++ (get_type p ++ more_types params)

unfoldable pub types : ParamSet → Bytes
types [] = []
types (p ∷ params) = get_type p ++ more_types params

unfoldable pub set_type : ParamSet → Bytes
set_type params = codes "(" ++ (types params ++ codes ")")

-- The loop of `getSize`.
unfoldable pub sizes : ParamSet → ℕ
sizes [] = 0
sizes (p ∷ params) =
    let index = if is_dynamic p || ltb encoded_int_size (get_size p) then 32 else 0 in
    index + get_size p + sizes params

unfoldable pub set_size : ParamSet → ℕ
set_size params = padded_to32 (sizes params)

unfoldable pub head_size : ParamSet → ℕ
head_size [] = 0
head_size (p ∷ params) = (if is_dynamic p then 32 else get_size p) + head_size params

-- Whether a parameter's bytes stand behind the head.
unfoldable pub is_behind : Param → Bool
is_behind p = is_dynamic p || ltb encoded_int_size (get_size p)

module _ (b : Boost) where
  -- The first loop of `encode`, and the second.
  unfoldable pub encode_heads : ℕ → ℕ → ParamSet → Bytes
  encode_heads head dynamic_offset [] = []
  encode_heads head dynamic_offset (p ∷ params) =
      let behind = encode_heads head (dynamic_offset + get_size p) params in
      let within = encode_heads head dynamic_offset params in
      if is_behind p
      then encode_uint256 b (head + dynamic_offset) ++ behind
      else encode b p ++ within

  unfoldable pub encode_tails : ParamSet → Bytes
  encode_tails [] = []
  encode_tails (p ∷ params) =
      let rest = encode_tails params in if is_behind p then encode b p ++ rest else rest

  unfoldable pub encode_set : ParamSet → Bytes
  encode_set params = encode_heads (head_size params) 0 params ++ encode_tails params

  -- The first loop of `decode`: an index is read and not used.
  unfoldable pub decode_small : ParamSet → Bytes → ℕ → Option (ParamSet × ℕ)
  decode_small [] encoded offset = some ([], offset)
  decode_small (p ∷ params) encoded offset =
      let index = decode_uint256 b encoded offset >>= λ word.
      decode_small params encoded word.1 >>= λ rest. some (p ∷ rest.0, rest.1) in
      let value = decode b p encoded offset >>= λ read.
      decode_small params encoded read.1 >>= λ rest. some (read.0 ∷ rest.0, rest.1) in
      if is_dynamic p then index else value

  unfoldable pub decode_large : ParamSet → Bytes → ℕ → Option (ParamSet × ℕ)
  decode_large [] encoded offset = some ([], offset)
  decode_large (p ∷ params) encoded offset =
      let value = decode b p encoded offset >>= λ read.
      decode_large params encoded read.1 >>= λ rest. some (read.0 ∷ rest.0, rest.1) in
      let kept = decode_large params encoded offset >>= λ rest. some (p ∷ rest.0, rest.1) in
      if is_dynamic p then value else kept

  unfoldable pub decode_set : ParamSet → Bytes → ℕ → Option (ParamSet × ℕ)
  decode_set params encoded offset =
      decode_small params encoded offset >>= λ small. decode_large small.0 encoded small.1
