-- ===== src/Abi/Function/Calls.antt =====
-- A call that was encoded is decoded again.
use cpp_conflux_sdk.Common.{
  ◌+◌, ◌-◌, ◌^◌, ◌<◌, ◌≡◌, refl, ap, ◌∙◌, some, All, map, [], ◌∷◌, ◌++◌, arith, Bytes, length,
  replicate, length-append, length-take, bytes_eq_refl,
}
use cpp_conflux_sdk.Abi.{Boost, IsExact, padded_to32}
use cpp_conflux_sdk.Abi.Param.{
  Param, number, boolean, uint_n, address, byte_array, byte_array_fix, string, fresh, get_type,
  decode_bytes_fix,
}
use cpp_conflux_sdk.Abi.Param.RoundTrip.{decode_bytes_fix-plain}
use cpp_conflux_sdk.Abi.ParamSet.{
  ParamSet, more_types, types, set_type, head_size, encode_tails, encode_set, decode_set,
}
use cpp_conflux_sdk.Abi.ParamSet.RoundTrip.{IsPlaced, cut}
use cpp_conflux_sdk.Abi.ParamSet.Layout.{decode_set-encode_set}
use cpp_conflux_sdk.Abi.Function.{Function, function_type, get_signature, encode_call, decode_input}

get_type-fresh : (p : Param) → get_type (fresh p) ≡ get_type p
unfolding get_type fresh
get_type-fresh (number bits val) = refl
get_type-fresh (boolean val) = refl
get_type-fresh (uint_n bits val) = refl
get_type-fresh (address val) = refl
get_type-fresh (byte_array val) = refl
get_type-fresh (byte_array_fix n val) = refl
get_type-fresh (string val) = refl

more_types-fresh : (ps : ParamSet) → more_types (map fresh ps) ≡ more_types ps
unfolding more_types
more_types-fresh [] = refl
more_types-fresh (p ∷ ps) = rw (get_type-fresh p, more_types-fresh ps)

types-fresh : (ps : ParamSet) → types (map fresh ps) ≡ types ps
unfolding types
types-fresh [] = refl
types-fresh (p ∷ ps) = rw (get_type-fresh p, more_types-fresh ps)

-- The function before its parameters are read.
pub unread : Function → Function
unread f = record f { in_params = map fresh f.in_params }

module _ (keccak : Bytes → Bytes) (hash32 : (d : Bytes) → length (keccak d) ≡ 32) where
  -- Values do not count for the signature.
  get_signature-unread : (f : Function) → get_signature keccak (unread f) ≡ get_signature keccak f
  unfolding get_signature function_type set_type unread
  get_signature-unread f = rw (types-fresh f.in_params)

  length-get_signature : (f : Function) → length (get_signature keccak f) ≡ 4
  unfolding get_signature
  length-get_signature f =
      omega (arith, length-take 4 (keccak (function_type f)), hash32 (function_type f))

  module _ (b : Boost) (exact : IsExact b) where
    -- With boost's conversions as documented and a hash of 32 bytes: a call whose parameters are held by
    -- their types, none of them fixed bytes of more than 32, encoded among any bytes that all have fewer
    -- than 2 ^ 64, is decoded into the function with fresh input parameters, which then is the function
    -- that was encoded, and the offset moves behind the call.
    pub decode_input-encode_call :
        (f : Function) (front rest : Bytes)
        → All IsPlaced f.in_params
        → length front
            + 4
            + (head_size f.in_params + length (encode_tails b f.in_params))
            + length rest
          < 2 ^ 64
        → decode_input keccak b
            (unread f)
            (front ++ (encode_call keccak b f ++ rest))
            (length front)
          ≡ some (f, length front + length (encode_call keccak b f))
    unfolding decode_input encode_call
    decode_input-encode_call f front rest h small =
        let sig = get_signature keccak f in
        let body = encode_set b f.in_params in
        let four = length-get_signature f in
        let c = cut (front ++ ((sig ++ body) ++ rest)) front sig body rest refl in
        let sum = length-append front sig in
        let d = front ++ ((sig ++ body) ++ rest) in
        let hash : decode_bytes_fix d 4 (replicate 4 0) (length front)
            ≡ some (sig, length front + padded_to32 4) =
          ap (λ (t : Bytes). decode_bytes_fix t 4 (replicate 4 0) (length front)) c.0
          ∙ decode_bytes_fix-plain 4 sig front (body ++ rest) four in
        let behind : length front + padded_to32 4 - 32 + 4 ≡ length (front ++ sig) =
          unfold padded_to32 in omega (arith, sum, four) in
        let params : decode_set b (map fresh f.in_params) d (length (front ++ sig))
            ≡ some (f.in_params, length (front ++ sig) + length body) =
          ap (λ (t : Bytes). decode_set b (map fresh f.in_params) t (length (front ++ sig))) c.1
          ∙ decode_set-encode_set b exact f.in_params (front ++ sig) rest h
              (omega (arith, small, sum, four)) in
        let total : length (front ++ sig) + length body ≡ length front + length (sig ++ body) =
          omega (arith, sum, length-append sig body) in
        rw (hash, get_signature-unread f, bytes_eq_refl sig, behind)
          (unfold unread in rw (params, total))
