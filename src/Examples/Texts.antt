-- ===== src/Examples/Texts.antt =====
-- Runs of the texts of the remote calls and of the sets of parameters.
use cpp_conflux_sdk.Common.Outcome.{ok, throw, invalid_argument}
use cpp_conflux_sdk.Common.{◌≡◌, refl, true, none, some, [], ◌∷◌, codes}
use cpp_conflux_sdk.CommonData.HexText.{
  from_hex, from_hex_loop, from_hex_odd, from_hex_char, behind_prefix, refuse,
}
use cpp_conflux_sdk.CommonJs.{
  on_failed, catch_failed, js_to_bytes, interpret_raw, empty, on_failed_throw, padded_right,
  one_further, last_nonzero, up_to, unpadded, before_zero, all_printable, from_raw,
}
use cpp_conflux_sdk.Abi.Param.{number, boolean, byte_array, is_dynamic, get_size}
use cpp_conflux_sdk.Abi.ParamSet.{
  ParamSet, add_param, add_params, get_param, get_param_unsafe, sizes, set_size,
}
use cpp_conflux_sdk.Abi.{padded_to32}

js_to_bytes_runs :
    (js_to_bytes (codes "0x1ff") empty ≡ ok (1 ∷ (0xff ∷ [])))
    × (js_to_bytes (codes "0xg") empty ≡ ok [])
    × (js_to_bytes (codes "hi") interpret_raw ≡ ok (codes "hi"))
    × (js_to_bytes (codes "hi") on_failed_throw ≡ throw invalid_argument)
unfolding js_to_bytes catch_failed on_failed from_hex from_hex_loop from_hex_odd from_hex_char
    behind_prefix refuse
js_to_bytes_runs = (refl, refl, refl, refl)

padding_runs :
    (padded_right (5 ∷ []) 3 ≡ 5 ∷ (0 ∷ (0 ∷ [])))
    × (unpadded (0 ∷ (5 ∷ (0 ∷ (0 ∷ [])))) ≡ 0 ∷ (5 ∷ []))
    × (unpadded (0 ∷ (0 ∷ [])) ≡ [])
unfolding padded_right unpadded up_to last_nonzero one_further
padding_runs = (refl, refl, refl)

from_raw_runs :
    (from_raw (b'o' ∷ (b'k' ∷ (0 ∷ (9 ∷ [])))) ≡ codes "ok") × (from_raw (b'o' ∷ (9 ∷ [])) ≡ [])
unfolding from_raw before_zero all_printable
from_raw_runs = (refl, refl)

abbrev two : ParamSet
two = add_params [] (number 8 1 ∷ (byte_array (1 ∷ []) ∷ []))

set_runs :
    (get_param two 1 ≡ some (byte_array (1 ∷ [])))
    × (get_param two 2 ≡ none)
    × (get_param_unsafe two 2 ≡ some (number 8 1))
    × ((add_param two (boolean true)).1 ≡ 2)
    × (set_size two ≡ 128)
unfolding add_params add_param get_param get_param_unsafe set_size sizes is_dynamic get_size
    padded_to32
set_runs = (refl, refl, refl, refl, refl)
