-- ===== src/Cfxaddress/VersionByte/RoundTrip.antt =====
-- A version byte against its three fields.
use cpp_conflux_sdk.Common.{ℕ, ◌/◌, ◌%◌, ◌<◌, ◌≡◌, ◌≢◌, refl, Bool, true, ◌&&◌, arith, ◌==◌}
use cpp_conflux_sdk.Common.Tables.{holds_below, holds_below→at}
use cpp_conflux_sdk.Cfxaddress.VersionByte.{of_byte, to_byte}

field_facts : ℕ → Bool
field_facts b =
    let v = of_byte b in
    to_byte v == b
    && (v.type_bits == b / 128 && (v.address_type == b / 8 % 16 && v.size_bits == b % 16))

all_bytes : holds_below 256 field_facts ≡ true
unfolding holds_below field_facts of_byte to_byte
all_bytes = refl

-- The three fields of a byte are its highest bit, the next four bits and its lowest four bits, and
-- they are put together to the byte again.
pub to_byte-of_byte :
    (b : ℕ)
    → b < 256
    → (to_byte (of_byte b) ≡ b)
      × ((of_byte b).type_bits ≡ b / 128)
      × ((of_byte b).address_type ≡ b / 8 % 16)
      × ((of_byte b).size_bits ≡ b % 16)
unfolding field_facts
to_byte-of_byte b h = ground (arith, holds_below→at 256 field_facts all_bytes b h)

-- The size bits are not the three lowest bits of a byte whose fourth bit is set.
pub size_bits_differ : (b : ℕ) → b < 256 → b / 8 % 2 ≡ 1 → (of_byte b).size_bits ≢ b % 8
size_bits_differ b h set = omega (arith, to_byte-of_byte b h)
