-- ===== src/Examples/Calls.antt =====
-- A call with a number, a string, a flag and bytes, with boost's numbers by their documentation and a
-- stand-in for hashing.
use native.Mathlib.Nat.{mod-eq_of_lt}
use cpp_conflux_sdk.Common.{
  ◌+◌, ◌%◌, ◌^◌, ◌≡◌, refl, true, some, All, map, [], ◌∷◌, ◌++◌, arith, Bytes, codes, length, take,
  drop, replicate, length-replicate,
}
use cpp_conflux_sdk.CommonData.Endian.{
  from_big_endian, to_big_endian, to_compact_big_endian, bytes_required, count_bytes,
}
use cpp_conflux_sdk.CommonData.Endian.Compact.{
  bytes_required_iff, from_big_endian-to_compact_big_endian,
}
use cpp_conflux_sdk.Abi.{
  Boost, IsExact, padded_to32, padded_on_left, encode_uint256, decode_uint256, pad_needed32,
}
use cpp_conflux_sdk.Abi.Param.{
  number, boolean, byte_array, string, fresh, is_dynamic, get_size, encode, encode_string,
  encode_bytes, encode_padded,
}
use cpp_conflux_sdk.Abi.Param.RoundTrip.{IsHeld}
use cpp_conflux_sdk.Abi.ParamSet.{
  ParamSet, is_behind, head_size, encode_tails, encode_set, decode_set,
}
use cpp_conflux_sdk.Abi.ParamSet.RoundTrip.{IsPlaced}
use cpp_conflux_sdk.Abi.ParamSet.Layout.{decode_set-encode_set}
use cpp_conflux_sdk.Abi.ParamSet.Indices.{place, decode_uint256-place}
use cpp_conflux_sdk.Abi.Function.{Function, encode_call, decode_input}
use cpp_conflux_sdk.Abi.Function.Calls.{unread, decode_input-encode_call}

abbrev documented : Boost
documented = record {
  export_bits = λ v. to_compact_big_endian v 1;
  import_bits = λ d. from_big_endian 256 d;
  narrow = λ bits v. v % 2 ^ bits;
}

documented-IsExact : IsExact documented
documented-IsExact = record {
  export_length = λ v h.
      omega
        (arith, (from_big_endian-to_compact_big_endian 256 v 1 h).1, (bytes_required_iff v 32).0 h);
  export_value = λ v h. (from_big_endian-to_compact_big_endian 256 v 1 h).0;
  import_value = λ d h. refl;
  narrow_exact = λ bits v h. mod-eq_of_lt h;
}

abbrev sent : ParamSet
sent = number 32 7 ∷ (string (codes "dave") ∷ (boolean true ∷ (byte_array (1 ∷ (2 ∷ [])) ∷ [])))

sent-IsPlaced : All IsPlaced sent
unfolding IsPlaced IsHeld is_behind is_dynamic get_size
sent-IsPlaced = ground arith

abbrev transfer : Function
transfer = record { name = codes "transfer"; in_params = sent; out_params = [] }

abbrev hash : Bytes → Bytes
hash d = replicate 32 (length d % 256)

-- The coding of the tails.
tails_small : (head_size sent ≡ 128) × (length (encode_tails documented sent) ≡ 128)
unfolding head_size is_dynamic get_size encode_tails is_behind encode encode_string encode_bytes
    encode_padded padded_to32 pad_needed32 encode_uint256 padded_on_left to_compact_big_endian
    to_big_endian bytes_required count_bytes
tails_small = (refl, refl)

decode_set-encode_set_example :
    decode_set documented (map fresh sent) ((9 ∷ []) ++ (encode_set documented sent ++ [])) 1
    ≡ some (sent, 1 + length (encode_set documented sent))
decode_set-encode_set_example =
    decode_set-encode_set documented documented-IsExact sent (9 ∷ []) [] sent-IsPlaced
      (omega (arith, tails_small))

decode_uint256-place_example :
    (decode_uint256 documented (encode_set documented sent) (head_size (number 32 7 ∷ []))
      ≡ some (
        place documented documented-IsExact
            (number 32 7 ∷ [])
            (string (codes "dave"))
            (boolean true ∷ (byte_array (1 ∷ (2 ∷ [])) ∷ [])),
        head_size (number 32 7 ∷ []) + 32,
      ))
    × (take (get_size (string (codes "dave"))) (
          drop
            (place documented documented-IsExact
              (number 32 7 ∷ [])
              (string (codes "dave"))
              (boolean true ∷ (byte_array (1 ∷ (2 ∷ [])) ∷ [])))
            (encode_set documented sent))
        ≡ encode documented (string (codes "dave")))
decode_uint256-place_example =
    decode_uint256-place documented documented-IsExact (number 32 7 ∷ []) (string (codes "dave"))
      (boolean true ∷ (byte_array (1 ∷ (2 ∷ [])) ∷ [])) (sent-IsPlaced.0, tt) sent-IsPlaced.1.0
      sent-IsPlaced.1.1 (unfold is_dynamic in refl) (omega (arith, tails_small))

decode_input-encode_call_example :
    decode_input hash documented
      (unread transfer)
      ((9 ∷ []) ++ (encode_call hash documented transfer ++ []))
      1
    ≡ some (transfer, 1 + length (encode_call hash documented transfer))
decode_input-encode_call_example =
    decode_input-encode_call hash (λ d. length-replicate 32 (length d % 256)) documented
      documented-IsExact transfer (9 ∷ []) [] sent-IsPlaced (omega (arith, tails_small))
