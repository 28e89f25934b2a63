-- ===== src/Examples/Data.antt =====
-- Numbers as bytes and hexadecimal text at concrete values.
use cpp_conflux_sdk.Common.Outcome.{ok}
use cpp_conflux_sdk.Common.{◌≡◌, refl, [], ◌∷◌, Bytes, codes}
use cpp_conflux_sdk.CommonData.HexText.{
  dont_throw, throw_error, from_hex_char, behind_prefix, from_hex_odd, from_hex_loop, is_hex,
  from_hex,
}
use cpp_conflux_sdk.CommonData.Sequences.{common_prefix_loop, common_prefix}
use cpp_conflux_sdk.CommonData.HexText.Refusals.{returns, or_no_bytes, from_hex-is_hex}

abbrev some_bytes : Bytes
some_bytes = 0 ∷ (0xff ∷ (0x1a ∷ []))

from_hex-is_hex_example :
    (returns (from_hex (codes "0x1g") throw_error) ≡ is_hex (codes "0x1g"))
    × (from_hex (codes "0x1g") dont_throw ≡ ok (or_no_bytes (from_hex (codes "0x1g") throw_error)))
from_hex-is_hex_example = from_hex-is_hex (codes "0x1g")

-- A text of odd size: the first digit stands alone.
odd_text : from_hex (codes "0xABc") throw_error ≡ ok (0x0a ∷ (0xbc ∷ []))
unfolding from_hex behind_prefix from_hex_odd from_hex_loop from_hex_char
odd_text = refl

three_shared : common_prefix (codes "Hello") (codes "Help") ≡ 3
unfolding common_prefix common_prefix_loop
three_shared = refl
