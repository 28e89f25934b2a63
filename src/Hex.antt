-- ===== src/Hex.antt =====
-- libcfxcore/common/encoding/hex.cpp: hexadecimal text to bytes and back. A string is the list of
-- its characters, read as `uint8_t` the way `fromHexChar` takes them.
pub mod RoundTrip
pub mod Decoding
use cpp_conflux_sdk.Common.{
  ℕ, ◌+◌, ◌-◌, ◌*◌, ◌/◌, ◌%◌, ◌^◌, bit_and, bit_or, Bool, true, false, ◌&&◌, [], ◌∷◌, ◌++◌, Bytes,
  codes, length, get_or, leb, ◌==◌, if◌then◌else◌,
}

-- The digit and what `*isOK` is set to.
unfoldable pub from_hex_char : ℕ → ℕ × Bool
from_hex_char c =
    if leb b'0' c && leb c b'9'
    then (c - b'0', true)
    else if leb b'a' c && leb c b'f'
    then (c - b'a' + 10, true)
    else if leb b'A' c && leb c b'F'
    then (c - b'A' + 10, true)
    else (0, false)

-- `(uint8_t)((a << 4) | b)`.
unfoldable pub join_digits : ℕ → ℕ → ℕ
join_digits a b = bit_or (a * 2 ^ 4) b % 256

-- The loop over `j = 1, 3, …`: `dst` and the returned count. `odd` is `src.size() % 2 == 1`, which
-- the code tests behind the loop.
unfoldable pub decode_loop : Bool → Bytes → Bytes → ℕ → Bytes × ℕ
decode_loop odd [] dst i = (dst, if odd then 0 else i)
decode_loop odd (c ∷ []) dst i = (dst, if odd then 0 else i)
decode_loop odd (c ∷ (d ∷ rest)) dst i =
    let (a, a_ok) = from_hex_char c in
    let (b, b_ok) = from_hex_char d in
    let more = decode_loop odd rest (dst ++ (join_digits a b ∷ [])) (i + 1) in
    if a_ok then (if b_ok then more else (dst, i)) else (dst, i)

-- `Decode(dst, src)`: the new `dst` and the result.
unfoldable pub decode : Bytes → Bytes → Bytes × ℕ
decode dst src = decode_loop (length src % 2 == 1) src dst 0

-- `DecodeString`: the count that `Decode` returns is dropped.
unfoldable pub decode_string : Bytes → Bytes
decode_string src = (decode [] src).0

abbrev pub hextable : Bytes
hextable = codes "0123456789abcdef"

-- `hextable[v >> 4]` and `hextable[v & 0x0f]`.
unfoldable pub high_digit : ℕ → ℕ
high_digit v = get_or hextable (v / 2 ^ 4) 0

unfoldable pub low_digit : ℕ → ℕ
low_digit v = get_or hextable (bit_and v 0x0f) 0

unfoldable pub encode_to_string : Bytes → Bytes
encode_to_string [] = []
encode_to_string (v ∷ src) = high_digit v ∷ (low_digit v ∷ encode_to_string src)
