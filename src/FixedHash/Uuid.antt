-- ===== src/FixedHash/Uuid.antt =====
-- Universally unique identifiers as text.
use cpp_conflux_sdk.Common.{
  ℕ, ◌≡◌, refl, ap, sym, ◌∙◌, not, true, [], ◌∷◌, ◌++◌, arith, Bytes, length, take, drop,
  take-append-drop, ◌==◌, ◌&&◌, if◌then◌else◌, All, IsByte,
}
use cpp_conflux_sdk.Common.Tables.{holds_below, holds_below→at}
use cpp_conflux_sdk.CommonData.HexText.{throw_error, to_hex, high_digit, low_digit}
use cpp_conflux_sdk.CommonData.HexText.RoundTrip.{from_hex-to_hex}
use cpp_conflux_sdk.FixedHash.{insert_at, to_uuid, from_uuid, of_hex, of_bytes, or_zeros}

-- A text without its dashes, which is what boost documents of replacing them by nothing.
abbrev pub plain : Bytes → Bytes
plain [] = []
plain (c ∷ s) = if c == b'-' then plain s else c ∷ plain s

plain-append : (s t : Bytes) → plain (s ++ t) ≡ plain s ++ plain t
plain-append [] t = refl
plain-append (c ∷ s) t = ground (arith, plain-append s t)

plain-insert_at : (place : ℕ) (s : Bytes) → plain (insert_at place b'-' s) ≡ plain s
unfolding insert_at
plain-insert_at place s =
    plain-append (take place s) (b'-' ∷ drop place s)
    ∙ sym (plain-append (take place s) (drop place s))
    ∙ ap plain (take-append-drop place s)

no_dashes : holds_below 256 (λ v. not (high_digit v == b'-') && not (low_digit v == b'-')) ≡ true
unfolding holds_below high_digit low_digit
no_dashes = refl

plain-to_hex : (h : Bytes) → All IsByte h → plain (to_hex h) ≡ to_hex h
unfolding to_hex
plain-to_hex [] bs = refl
plain-to_hex (b ∷ h) (hb, hs) =
    let plain_digits = holds_below→at 256 _ no_dashes b hb in ground (arith, plain-to_hex h hs)

-- If replacing dashes by nothing is what it is documented to be: 16 bytes, written as an identifier and
-- read again, are the same bytes.
pub from_uuid-to_uuid :
    (without_dashes : Bytes → Bytes) (uuid : Bytes)
    → ((s : Bytes) → without_dashes s ≡ plain s)
    → All IsByte uuid
    → length uuid ≡ 16
    → from_uuid without_dashes (to_uuid uuid) ≡ uuid
unfolding from_uuid to_uuid of_hex of_bytes or_zeros
from_uuid-to_uuid without_dashes uuid documented bs size =
    let digits : without_dashes (to_uuid uuid) ≡ to_hex uuid =
      documented _
      ∙ plain-insert_at 8 _
      ∙ plain-insert_at 12 _
      ∙ plain-insert_at 16 _
      ∙ plain-insert_at 20 _
      ∙ plain-to_hex uuid bs in
    rw (digits, (from_hex-to_hex uuid throw_error bs).0, size) refl
