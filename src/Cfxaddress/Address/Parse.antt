-- ===== src/Cfxaddress/Address/Parse.antt =====
-- `NewFromBase32` on the parts of a text that was made from twenty bytes.
use cpp_conflux_sdk.Common.Outcome.{ok}
use cpp_conflux_sdk.Common.{
  ℕ, ◌-◌, ◌^◌, ◌<◌, ◌≡◌, refl, sym, ap, false, not, ◌&&◌, List, [], ◌++◌, arith, Bytes, length,
  length-append, take, drop, take-append_length, drop-append_length, get_or, bytes_eq,
  bytes_eq_refl, bytes_eq→eq, Bool-cases, inl, inr, ◌≢◌, ◌==◌,
}
use cpp_conflux_sdk.StringUtil.{tolower_string}
use cpp_conflux_sdk.Cfxaddress.NetworkType
use cpp_conflux_sdk.Cfxaddress.AddressType
use cpp_conflux_sdk.Cfxaddress.AddressType.{calc_address_type}
use cpp_conflux_sdk.Cfxaddress.Body
use cpp_conflux_sdk.Cfxaddress.Body.{Body, bits5s_to_string, to_hex_address}
use cpp_conflux_sdk.Cfxaddress.Body.RoundTrip.{of_string-bits5s_to_string}
use cpp_conflux_sdk.Cfxaddress.Checksum.{calc_checksum}
use cpp_conflux_sdk.Cfxaddress.Address.{Address, last_part, check_base32, parse_body}
use cpp_conflux_sdk.Cfxaddress.Address.Made.{
  payload, address_of, IsHex20, payload-hex, payload-Fits, set_cache-payload,
}
use cpp_conflux_sdk.Cfxaddress.Address.Texts.{
  payload_symbols, checksum_symbols, length-payload_symbols,
}

-- The object when the payload and the type have been read.
abbrev pub read_payload : Address → Bytes → ℕ → Address
read_payload a hex id = record a {
  network_type = NetworkType.of_id id;
  address_type = calc_address_type hex;
  body = payload hex;
}

-- The payload's symbols are read back as the payload.
payload_read :
    (hex : Bytes) → IsHex20 hex → Body.of_string (bits5s_to_string (payload hex).body) ≡ payload hex
payload_read hex h =
    ap (λ (t : Bytes). let b : Body = record { body = t } in b)
      (of_string-bits5s_to_string (payload hex).body (payload-Fits hex h).0)

-- The checksum's symbols end the parse well, and fill the cache; others end it with 0.
pub check_base32-made :
    (a : Address) (hex : Bytes) (id : ℕ)
    → IsHex20 hex
    → id < 2 ^ 32
    → check_base32 (read_payload a hex id) (checksum_symbols hex id) ≡ ok (address_of hex id, 1)
unfolding check_base32 address_of checksum_symbols
check_base32-made a hex id h small =
    let chk = calc_checksum (NetworkType.of_id id) (payload hex) in
    let a' = record (read_payload a hex id) { checksum = chk } in
    rw (set_cache-payload a' hex id h small refl refl, bytes_eq_refl (bits5s_to_string chk))

pub check_base32_other :
    (a : Address) (hex chk : Bytes) (id : ℕ)
    → chk ≢ checksum_symbols hex id
    → (a' : Address) × (check_base32 (read_payload a hex id) chk ≡ ok (a', 0))
unfolding check_base32 checksum_symbols
check_base32_other a hex chk id ne =
    let sum = calc_checksum (NetworkType.of_id id) (payload hex) in
    (
      record (read_payload a hex id) { checksum = sum },
      elim (Bool-cases (bytes_eq (bits5s_to_string sum) chk)) [
        | inl same ↦ absurd (ne (sym (bytes_eq→eq _ chk same)))
        | inr other ↦ rw other
      ],
    )

-- Where the last part is the payload's symbols and eight more, and a type that is named is the right
-- one, everything is read but the checksum.
pub parse_body-check :
    (a : Address) (parts : List Bytes) (hex chk : Bytes) (id : ℕ)
    → IsHex20 hex
    → length chk ≡ 8
    → last_part parts ≡ payload_symbols hex ++ chk
    → (length parts == 3
        && not (
            bytes_eq
              (tolower_string (get_or parts 1 []))
              (AddressType.string (calc_address_type hex))))
      ≡ false
    → parse_body (record a { network_type = NetworkType.of_id id }) parts
      ≡ check_base32 (read_payload a hex id) chk
unfolding parse_body
parse_body-check a parts hex chk id h eight last named =
    rw (last, front, cut, rest, read, payload-hex hex h, named) (ground (arith, size))
  where
    size : length (payload_symbols hex ++ chk) ≡ 42
    size =
        omega (arith, length-append (payload_symbols hex) chk, length-payload_symbols hex h, eight)

    front : length (payload_symbols hex ++ chk) - 8 ≡ 34
    front = omega (arith, size)

    cut : take 34 (payload_symbols hex ++ chk) ≡ payload_symbols hex
    cut = take-append_length 34 (payload_symbols hex) chk (length-payload_symbols hex h)

    rest : drop 34 (payload_symbols hex ++ chk) ≡ chk
    rest = drop-append_length 34 (payload_symbols hex) chk (length-payload_symbols hex h)

    read : Body.of_string (payload_symbols hex) ≡ payload hex
    read = unfold payload_symbols in payload_read hex h
