-- ===== src/Examples/Encodings.antt =====
-- Bytes and texts: hexadecimal digits, parts of a text, regrouped bits.
use cpp_conflux_sdk.Common.{ℕ, ◌≡◌, ◌++◌, refl, [], ◌∷◌, arith, Bytes, codes, length}
use cpp_conflux_sdk.Hex.{from_hex_char, decode, decode_string, encode_to_string}
use cpp_conflux_sdk.Hex.RoundTrip.{decode-encode_to_string}
use cpp_conflux_sdk.Hex.Decoding.{decode_stops}
use cpp_conflux_sdk.Cfxaddress.Convert.{convert}
use cpp_conflux_sdk.Cfxaddress.Convert.RoundTrip.{Padded, convert-Padded, convert-convert}

abbrev three_bytes : Bytes
three_bytes = 0 ∷ (0xff ∷ (0x1a ∷ []))

decode-encode_to_string_example :
    (decode_string (encode_to_string three_bytes) ≡ three_bytes)
    × (decode (7 ∷ []) (encode_to_string three_bytes)
        ≡ ((7 ∷ []) ++ three_bytes, length three_bytes))
decode-encode_to_string_example = decode-encode_to_string (7 ∷ []) three_bytes (ground arith)

decode_stops_example :
    (decode [] (encode_to_string three_bytes ++ (b'0' ∷ (b'g' ∷ codes "11")))
      ≡ ([] ++ three_bytes, length three_bytes))
    × (decode [] (encode_to_string three_bytes ++ (b'0' ∷ [])) ≡ ([] ++ three_bytes, 0))
unfolding from_hex_char
decode_stops_example = decode_stops [] three_bytes b'0' b'g' (codes "11") (ground arith) refl

convert-Padded_example : (pad : ℕ) × Padded 8 5 three_bytes (convert three_bytes 8 5) pad
convert-Padded_example =
    convert-Padded three_bytes 8 5 (omega arith) (omega arith) (omega arith) (ground arith)

abbrev groups : Bytes
groups = 31 ∷ (0 ∷ (17 ∷ []))

convert-convert_example : convert (convert three_bytes 8 5) 5 8 ≡ three_bytes
convert-convert_example =
    convert-convert three_bytes 8 5 (omega arith) (omega arith) (omega arith) (ground arith)
