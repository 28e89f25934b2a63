-- ===== src/Cfxaddress/Address/FromHex.antt =====
-- Hexadecimal text as the source of an address.
use cpp_conflux_sdk.Common.Outcome.{ok}
use cpp_conflux_sdk.Common.{
  ℕ, ◌^◌, ◌<◌, ◌≡◌, refl, sym, ap, ap₂, ◌∙◌, Bool, true, ◌&&◌, ◌||◌, [], ◌∷◌, ◌++◌, arith, Bytes,
  codes, All, IsByte, leb, ◌==◌, append-nil,
}
use cpp_conflux_sdk.Common.Tables.{holds_below, holds_below→at}
use cpp_conflux_sdk.Hex.{encode_to_string, high_digit, low_digit}
use cpp_conflux_sdk.Hex.RoundTrip.{decode-encode_to_string, length-encode_to_string}
use cpp_conflux_sdk.StringUtil.{tolower, tolower_string}
use cpp_conflux_sdk.StringUtil.Affix.{starts_with-append}
use cpp_conflux_sdk.Cfxaddress.Regex.{times, at_end, match_with, regex_match}
use cpp_conflux_sdk.Cfxaddress.Regex.Forward.{matches_seq, matches_literal, matches_times}
use cpp_conflux_sdk.Cfxaddress.Address.{Address, hex_pattern, new_from_hex, new}
use cpp_conflux_sdk.Cfxaddress.Address.Methods.{to_hex, get_hex_address}
use cpp_conflux_sdk.Cfxaddress.Address.Made.{address_of, IsHex20, new_from_bytes-made}

abbrev in_class : ℕ → Bool
in_class c = (leb b'a' c && leb c b'f') || (leb b'0' c && leb c b'9')

digit_is_good : ℕ → Bool
digit_is_good c = in_class c && tolower c == c

digit_table :
    holds_below 256 (λ v. digit_is_good (high_digit v) && digit_is_good (low_digit v)) ≡ true
unfolding holds_below digit_is_good high_digit low_digit tolower
digit_table = refl

abbrev IsHexDigit : ℕ → Type 0
IsHexDigit c = (in_class c ≡ true) × (tolower c ≡ c)

encode_to_string-IsHexDigit : (bs : Bytes) → All IsByte bs → All IsHexDigit (encode_to_string bs)
unfolding encode_to_string digit_is_good
encode_to_string-IsHexDigit [] h = tt
encode_to_string-IsHexDigit (b ∷ bs) (hb, h) =
    let fact =
      holds_below→at 256 (λ v. digit_is_good (high_digit v) && digit_is_good (low_digit v))
        digit_table b hb in
    (ground arith, (ground arith, encode_to_string-IsHexDigit bs h))

lower_digits : (s : Bytes) → All IsHexDigit s → tolower_string s ≡ s
unfolding tolower_string
lower_digits [] h = refl
lower_digits (c ∷ s) ((_, lower), h) = ap₂ (λ (x : ℕ) (t : Bytes). x ∷ t) lower (lower_digits s h)

in_classes : (s : Bytes) → All IsHexDigit s → All (λ c. in_class c ≡ true) s
in_classes [] h = tt
in_classes (c ∷ s) ((is_in, _), h) = (is_in, in_classes s h)

-- `0x` and the forty digits of an address's bytes make that address, on the network asked for.
pub new-get_hex_address :
    (a : Address) (hex : Bytes) (id : ℕ)
    → IsHex20 hex
    → id < 2 ^ 32
    → new a (get_hex_address (address_of hex id)) id ≡ ok (address_of hex id)
new-get_hex_address a hex id (bytes, twenty) small =
    rw text (unfold new in rw (lower, matches, made) refl)
  where
    digits : Bytes
    digits = encode_to_string hex

    good : All IsHexDigit digits
    good = encode_to_string-IsHexDigit hex bytes

    text : get_hex_address (address_of hex id) ≡ codes "0x" ++ digits
    text = unfold get_hex_address to_hex address_of in refl

    lower : tolower_string (codes "0x" ++ digits) ≡ codes "0x" ++ digits
    lower =
        unfold tolower_string tolower in
        ap (λ (t : Bytes). b'0' ∷ (b'x' ∷ t)) (lower_digits digits good)

    matches : regex_match (codes "0x" ++ digits) hex_pattern ≡ true
    matches =
        unfold regex_match hex_pattern in
        matches_seq _ _ _ at_end (
          matches_literal (codes "0x") digits _ (
            ap (λ (t : Bytes). match_with (times 40 in_class) t at_end) (sym (append-nil digits))
            ∙ matches_times 40 in_class digits [] at_end
                (omega (arith, length-encode_to_string hex, twenty)) (in_classes digits good) refl))

    made : new_from_hex a (codes "0x" ++ digits) id ≡ ok (address_of hex id, 1)
    made =
        unfold new_from_hex in
        rw (
          starts_with-append (codes "0x") digits,
          (decode-encode_to_string [] hex bytes).0,
          new_from_bytes-made a hex id (bytes, twenty) small,
        )
