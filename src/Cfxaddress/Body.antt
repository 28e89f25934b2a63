-- ===== src/Cfxaddress/Body.antt =====
-- cfxaddress/body.cpp: the payload of an address as numbers of five bits, and its alphabet.
pub mod RoundTrip
use cpp_conflux_sdk.Common.{ℕ, suc, [], ◌∷◌, map, Bytes, codes, get_or, drop, ◌==◌, if◌then◌else◌}
use cpp_conflux_sdk.Cfxaddress.Convert.{convert}
use cpp_conflux_sdk.Cfxaddress.VersionByte.{VersionByte, of_byte, to_byte}

pub record Body : Type 0 where
  pub body : Bytes

abbrev pub alphabet : Bytes
alphabet = codes "abcdefghjkmnprstuvwxyz0123456789"

-- `alphabetToIndexMap` after `init`, as the position of a character from `i` on: no character stands
-- twice in the alphabet, and none is 0. A character that is not there has the value 0.
pub index_from : ℕ → Bytes → ℕ → ℕ
index_from i [] c = 0
index_from i (a ∷ rest) c = if a == c then i else index_from (suc i) rest c

pub alphabet_index : ℕ → ℕ
unfolding index_from
alphabet_index c = index_from 0 alphabet c

-- `Body(const std::string&)`.
pub of_string : Bytes → Body
of_string base32_str = record { body = map alphabet_index base32_str }

-- `Body(const VersionByte&, const byteArray&)`.
unfoldable pub of_bytes : VersionByte → Bytes → Body
of_bytes vrs_byte hex_address = record { body = convert (to_byte vrs_byte ∷ hex_address) 8 5 }

-- The version byte that `vrsType` is set to, and what is appended to `hexAddress`. With fewer than
-- two numbers in the body there is no byte at all, and `b[0]` is undefined: no address gets there.
pub to_hex_address : Body → VersionByte × Bytes
to_hex_address b = let bytes = convert b.body 5 8 in (of_byte (get_or bytes 0 0), drop 1 bytes)

-- `bits5sToString`; a number that is no index is undefined, and no caller has one.
unfoldable pub bits5s_to_string : Bytes → Bytes
bits5s_to_string five_bits = map (λ c. get_or alphabet c 0) five_bits

unfoldable pub string : Body → Bytes
string b = bits5s_to_string b.body
