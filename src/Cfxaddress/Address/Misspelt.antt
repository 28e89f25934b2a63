-- ===== src/Cfxaddress/Address/Misspelt.antt =====
-- A text of an address in which one symbol of the payload has been replaced by another.
use cpp_conflux_sdk.Common.Outcome.{ok, ◌>>=◌}
use cpp_conflux_sdk.Common.{
  ℕ, ◌-◌, ◌^◌, ◌<◌, ◌≡◌, ◌≢◌, refl, sym, ap, ◌∙◌, true, false, [], ◌∷◌, ◌++◌, arith, Bytes, length,
  length-append, take-append_length, drop-append_length, All, All-append, Bool-cases, inl, inr,
  bytes_eq, bytes_eq_refl, bytes_eq→eq,
}
use cpp_conflux_sdk.StringUtil.{tolower_string, split_string}
use cpp_conflux_sdk.StringUtil.Split.{join, split_string-join}
use cpp_conflux_sdk.Cfxaddress.Regex.{regex_match}
use cpp_conflux_sdk.Cfxaddress.Convert.BitStream.{Fits}
use cpp_conflux_sdk.Cfxaddress.NetworkType
use cpp_conflux_sdk.Cfxaddress.NetworkType.Prefix.{
  Prefix-IsPlain, of_id-Prefix, tolower_string-eq_of_plain,
}
use cpp_conflux_sdk.Cfxaddress.AddressType.{calc_address_type}
use cpp_conflux_sdk.Cfxaddress.Body
use cpp_conflux_sdk.Cfxaddress.Body.{Body, bits5s_to_string, to_hex_address}
use cpp_conflux_sdk.Cfxaddress.Body.RoundTrip.{
  IsSymbol, of_string-bits5s_to_string, bits5s_to_string-IsSymbol, length-bits5s_to_string,
}
use cpp_conflux_sdk.Cfxaddress.Checksum.{calc_checksum}
use cpp_conflux_sdk.Cfxaddress.Checksum.Shape.{calc_checksum_bits}
use cpp_conflux_sdk.Cfxaddress.Checksum.Detects.{with_symbol, calc_checksum_detects}
use cpp_conflux_sdk.Cfxaddress.Address.{
  Address, hex_pattern, base32_pattern, last_part, check_base32, parse_body, new_from_base32,
  after_base32, marked_invalid, new,
}
use cpp_conflux_sdk.Cfxaddress.Address.Methods.{is_valid}
use cpp_conflux_sdk.Cfxaddress.Address.Made.{payload, IsHex20, payload-Fits}
use cpp_conflux_sdk.Cfxaddress.Address.Texts.{
  checksum_symbols, checksum_symbols-IsCheck, IsCheck, no_type, base32_matches, hex_differs,
  symbols-IsPlain,
}
use cpp_conflux_sdk.Cfxaddress.Address.RoundTrip.{prefix_of, lower_joined, without_separator}

-- A compact text of any 34 numbers of five bits, with eight symbols for the checksum.
module _ (a : Address) (id : ℕ) (small : id < 2 ^ 31) (nums chk : Bytes) (fits : Fits 5 nums)
    (size : length nums ≡ 34) (check : IsCheck chk) where
  whole : Bytes
  whole = bits5s_to_string nums ++ chk

  text : Bytes
  text = prefix_of id ++ (b':' ∷ whole)

  body : Body
  body = record { body = nums }

  -- The object when the payload and the type have been read.
  read : Address
  read = record a {
    network_type = NetworkType.of_id id;
    address_type = calc_address_type (to_hex_address body).1;
    body = body;
  }

  symbols : All IsSymbol whole
  unfolding whole
  symbols =
      All-append IsSymbol (bits5s_to_string nums) chk (bits5s_to_string-IsSymbol nums fits) check.0

  length-nums : length (bits5s_to_string nums) ≡ 34
  length-nums = length-bits5s_to_string nums ∙ size

  length-whole : length whole ≡ 42
  unfolding whole
  length-whole = omega (arith, length-append (bits5s_to_string nums) chk, length-nums, check.1)

  split : split_string text b':' ≡ prefix_of id ∷ (whole ∷ [])
  unfolding text join
  split = split_string-join b':' (prefix_of id) (whole ∷ []) (
    without_separator _ (Prefix-IsPlain (of_id-Prefix id small)),
    (without_separator _ (symbols-IsPlain whole symbols), tt),
  )

  lower : tolower_string text ≡ text
  unfolding text
  lower =
      lower_joined (prefix_of id) whole
        (tolower_string-eq_of_plain _ (Prefix-IsPlain (of_id-Prefix id small)))
        (tolower_string-eq_of_plain _ (symbols-IsPlain whole symbols))

  parsed :
      parse_body (record a { network_type = NetworkType.of_id id }) (prefix_of id ∷ (whole ∷ []))
      ≡ check_base32 read chk
  unfolding parse_body last_part whole read body
  parsed =
      let length-all : length (bits5s_to_string nums ++ chk) ≡ 42 = unfold whole in length-whole in
      let front : length (bits5s_to_string nums ++ chk) - 8 ≡ 34 = omega (arith, length-all) in
      rw
        (
          front,
          take-append_length 34 (bits5s_to_string nums) chk length-nums,
          drop-append_length 34 (bits5s_to_string nums) chk length-nums,
          same,
        )
        (ground (arith, length-all))
    where
      same : Body.of_string (bits5s_to_string nums) ≡ record { body = nums }
      same =
          ap (λ (t : Bytes). let b : Body = record { body = t } in b)
            (of_string-bits5s_to_string nums fits)

  not_hex : regex_match text hex_pattern ≡ false
  unfolding text
  not_hex = hex_differs (b':' ∷ whole) (of_id-Prefix id small)

  is_base32 : regex_match text base32_pattern ≡ true
  unfolding text
  is_base32 = base32_matches whole (of_id-Prefix id small) no_type symbols length-whole

  -- The text is read up to its checksum.
  from_base32 : new_from_base32 a text ≡ check_base32 read chk
  unfolding new_from_base32
  from_base32 = rw (lower, bytes_eq_refl text, split, parsed) refl

  any_payload :
      (network_id : ℕ)
      → new a text network_id ≡ (check_base32 read chk >>= after_base32 text network_id)
  unfolding new
  any_payload network_id = rw (lower, not_hex, is_base32, from_base32)

  refused :
      bits5s_to_string (calc_checksum (NetworkType.of_id id) body) ≢ chk
      → (a' : Address) × (check_base32 read chk ≡ ok (a', 0))
  unfolding check_base32 read
  refused ne =
      let sum = calc_checksum (NetworkType.of_id id) body in
      (
        record read { checksum = sum },
        elim (Bool-cases (bytes_eq (bits5s_to_string sum) chk)) [
          | inl same ↦ absurd (ne (bytes_eq→eq _ chk same))
          | inr other ↦ rw other
        ],
      )

  -- Another checksum than the one of this payload is refused.
  pub not_taken :
      (network_id : ℕ)
      → bits5s_to_string (calc_checksum (NetworkType.of_id id) (record { body = nums })) ≢ chk
      → (x : Address) × (new a (prefix_of id ++ (b':' ∷ (bits5s_to_string nums ++ chk))) network_id
          ≡ ok x)
        × (is_valid x ≡ false)
  unfolding text whole body after_base32 is_valid marked_invalid
  not_taken network_id ne =
      let (a', failed) = refused ne in
      (marked_invalid a', any_payload network_id ∙ rw failed refl, refl)

Fits-parts :
    (w : ℕ) (front rest : Bytes) (d : ℕ)
    → Fits w (front ++ (d ∷ rest))
    → Fits w front × (d < 2 ^ w) × Fits w rest
Fits-parts w [] rest d (hd, h) = (tt, hd, h)
Fits-parts w (x ∷ front) rest d (hx, h) =
    let (hf, hd, hr) = Fits-parts w front rest d h in ((hx, hf), hd, hr)

bits5s_to_string-injective :
    (xs ys : Bytes) → Fits 5 xs → Fits 5 ys → bits5s_to_string xs ≡ bits5s_to_string ys → xs ≡ ys
bits5s_to_string-injective xs ys hx hy e =
    sym (of_string-bits5s_to_string xs hx)
    ∙ ap (λ (t : Bytes). (Body.of_string t).body) e
    ∙ of_string-bits5s_to_string ys hy

-- A compact text in which one symbol of the payload stands for another number than the address has
-- there, the rest and the checksum as the address has them: `New` returns without an exception, and
-- the address is not valid, whatever network is asked for.
pub new_misspelt :
    (a : Address) (hex front rest : Bytes) (d d' id network_id : ℕ)
    → IsHex20 hex
    → id < 2 ^ 31
    → (payload hex).body ≡ front ++ (d ∷ rest)
    → d' < 2 ^ 5
    → d' ≢ d
    → (x : Address) × (new a
          (prefix_of id
            ++ (b':' ∷ (bits5s_to_string (front ++ (d' ∷ rest)) ++ checksum_symbols hex id)))
          network_id
        ≡ ok x)
      × (is_valid x ≡ false)
new_misspelt a hex front rest d d' id network_id h small has hd' ne =
    not_taken a id small (front ++ (d' ∷ rest)) (checksum_symbols hex id) fits size
      (checksum_symbols-IsCheck hex id) network_id differs
  where
    five : Fits 5 (front ++ (d ∷ rest))
    five = rw (sym has) ((payload-Fits hex h).0)

    fits : Fits 5 (front ++ (d' ∷ rest))
    fits =
        let (hf, hd, hr) = Fits-parts 5 front rest d five in
        All-append (λ x. x < 2 ^ 5) front (d' ∷ rest) hf (hd', hr)

    size : length (front ++ (d' ∷ rest)) ≡ 34
    size = omega (
      arith,
      length-append front (d' ∷ rest),
      length-append front (d ∷ rest),
      ap length has,
      (payload-Fits hex h).1,
    )

    original : payload hex ≡ with_symbol front d rest
    original = ap (λ (t : Bytes). let b : Body = record { body = t } in b) has

    differs :
        bits5s_to_string (calc_checksum (NetworkType.of_id id) (with_symbol front d' rest))
        ≢ checksum_symbols hex id
    differs e =
        let (hf, hd, hr) = Fits-parts 5 front rest d five in
        let nt = NetworkType.of_id id in
        calc_checksum_detects nt front rest d' d hf hr hd' hd ne (
          bits5s_to_string-injective _ _ (calc_checksum_bits nt (with_symbol front d' rest)).1
            (calc_checksum_bits nt (with_symbol front d rest)).1
            (e
              ∙ (unfold checksum_symbols in
                  ap (λ (b : Body). bits5s_to_string (calc_checksum nt b)) original)))
