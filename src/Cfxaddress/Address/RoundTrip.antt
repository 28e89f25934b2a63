-- ===== src/Cfxaddress/Address/RoundTrip.antt =====
-- The texts of an address are read back as the address.
use mathlib.Core.List.{map-append}
use cpp_conflux_sdk.Cfxaddress.Body
use cpp_conflux_sdk.Common.Outcome.{ok, ◌>>=◌}
use cpp_conflux_sdk.Common.{
  ℕ, ◌^◌, ◌<◌, ◌≤◌, ◌≡◌, refl, ap, ap₂, ◌∙◌, true, false, not, ◌&&◌, List, [], ◌∷◌, ◌++◌, arith,
  Bytes, codes, length, get_or, All, bytes_eq, bytes_eq_refl, ◌==◌,
}
use cpp_conflux_sdk.StringUtil.{tolower, starts_with, tolower_string, split_string}
use cpp_conflux_sdk.StringUtil.Split.{Lacks, join, split_string-join}
use cpp_conflux_sdk.Cfxaddress.Regex.{regex_match}
use cpp_conflux_sdk.Cfxaddress.NetworkType
use cpp_conflux_sdk.Cfxaddress.NetworkType.{NetworkType, to_network_id}
use cpp_conflux_sdk.Cfxaddress.NetworkType.Prefix.{
  IsPlain, Prefix-IsPlain, of_id-Prefix, tolower_string-eq_of_plain,
}
use cpp_conflux_sdk.Cfxaddress.NetworkType.RoundTrip.{to_network_id-of_id}
use cpp_conflux_sdk.Cfxaddress.AddressType
use cpp_conflux_sdk.Cfxaddress.AddressType.{AddressType, calc_address_type}
use cpp_conflux_sdk.Cfxaddress.Address.{
  Address, hex_pattern, base32_pattern, last_part, check_base32, new_from_base32, new_from_hex,
  after_base32, new,
}
use cpp_conflux_sdk.Cfxaddress.Address.Methods.{get_base32_address}
use cpp_conflux_sdk.Cfxaddress.Address.Made.{address_of, IsHex20}
use cpp_conflux_sdk.Cfxaddress.Address.Texts.{
  payload_symbols, checksum_symbols, checksum_symbols-IsCheck, IsCheck, symbols_facts, no_type,
  base32_matches, hex_differs, unprefixed, symbols-IsPlain,
}
use cpp_conflux_sdk.Cfxaddress.Address.Parse.{read_payload, parse_body-check, check_base32-made}

abbrev pub prefix_of : ℕ → Bytes
prefix_of id = (NetworkType.of_id id).net_work_type_str

-- What is known of a text of the address when it is split.
pub record SplitsInto (text : Bytes) (hex chk : Bytes) (id : ℕ) (parts : List Bytes) : Type 0 where
  pub lower : tolower_string text ≡ text
  pub is_base32 : regex_match text base32_pattern ≡ true
  pub not_hex : regex_match text hex_pattern ≡ false
  pub no_digits : starts_with text (codes "0x") ≡ ok false
  pub split : split_string text b':' ≡ parts
  pub net : get_or parts 0 [] ≡ prefix_of id
  pub last : last_part parts ≡ payload_symbols hex ++ chk
  pub eight : length chk ≡ 8
  pub several : 2 ≤ length parts
  pub few : length parts ≤ 3
  pub named :
      (length parts == 3
        && not (
            bytes_eq
              (tolower_string (get_or parts 1 []))
              (AddressType.string (calc_address_type hex))))
      ≡ false

module _ (a : Address) (hex : Bytes) (id : ℕ) (h : IsHex20 hex) where
  -- The text is read up to its checksum.
  new_from_base32-check :
      (text chk : Bytes) (parts : List Bytes)
      → SplitsInto text hex chk id parts
      → new_from_base32 a text ≡ check_base32 (read_payload a hex id) chk
  unfolding new_from_base32
  new_from_base32-check text chk parts s =
      let several = s.several in
      let few = s.few in
      rw
        (
          s.lower,
          bytes_eq_refl text,
          s.split,
          s.net,
          parse_body-check a parts hex chk id h s.eight s.last s.named,
        )
        (ground arith)

  pub new-check :
      (text chk : Bytes) (parts : List Bytes) (network_id : ℕ)
      → SplitsInto text hex chk id parts
      → new a text network_id
        ≡ (check_base32 (read_payload a hex id) chk >>= after_base32 text network_id)
  unfolding new
  new-check text chk parts network_id s =
      rw (s.lower, s.not_hex, s.is_base32, new_from_base32-check text chk parts s)

module _ (a : Address) (hex : Bytes) (id : ℕ) (h : IsHex20 hex) (small : id < 2 ^ 32) where
  not_made :
      (text : Bytes) (network_id : ℕ)
      → starts_with text (codes "0x") ≡ ok false
      → new_from_hex (address_of hex id) text network_id ≡ ok (address_of hex id, 0)
  unfolding new_from_hex
  not_made text network_id e = rw e

  -- A network that differs from the text's is handed to `NewFromHex`, which does not take the text.
  after_base32-made :
      (text : Bytes) (network_id : ℕ)
      → starts_with text (codes "0x") ≡ ok false
      → after_base32 text network_id (address_of hex id, 1) ≡ ok (address_of hex id)
  unfolding after_base32
  after_base32-made text network_id e =
      let known : to_network_id (address_of hex id).network_type ≡ ok id =
        unfold address_of in to_network_id-of_id id small in
      rw (known, not_made text network_id e) (ground arith)

  pub new-made :
      (text : Bytes) (parts : List Bytes) (network_id : ℕ)
      → SplitsInto text hex (checksum_symbols hex id) id parts
      → new a text network_id ≡ ok (address_of hex id)
  new-made text parts network_id s =
      new-check a hex id h text (checksum_symbols hex id) parts network_id s
      ∙ rw (check_base32-made a hex id h small) (after_base32-made text network_id s.no_digits)

tolower_string-append :
    (s t : Bytes) → tolower_string (s ++ t) ≡ tolower_string s ++ tolower_string t
unfolding tolower_string
tolower_string-append s t = map-append tolower s t

pub lower_joined :
    (s t : Bytes)
    → tolower_string s ≡ s
    → tolower_string t ≡ t
    → tolower_string (s ++ (b':' ∷ t)) ≡ s ++ (b':' ∷ t)
lower_joined s t hs ht =
    tolower_string-append s (b':' ∷ t)
    ∙ ap₂ (λ (x y : Bytes). x ++ y) hs
        (unfold tolower_string tolower in ap (λ (y : Bytes). b':' ∷ y) ht)

pub without_separator : (s : Bytes) → All IsPlain s → Lacks b':' s
without_separator [] h = tt
without_separator (c ∷ s) ((_, hc), h) = (hc, without_separator s h)

-- The compact text, with any eight symbols for the checksum.
pub base32-SplitsInto :
    (hex chk : Bytes) (id : ℕ)
    → IsHex20 hex
    → IsCheck chk
    → id < 2 ^ 31
    → SplitsInto
        (prefix_of id ++ (b':' ∷ (payload_symbols hex ++ chk)))
        hex
        chk
        id
        (prefix_of id ∷ ((payload_symbols hex ++ chk) ∷ []))
base32-SplitsInto hex chk id h check small =
    let net = of_id-Prefix id small in
    let plain = Prefix-IsPlain net in
    let (syms, size) = symbols_facts hex chk h check in
    let plain' = symbols-IsPlain (payload_symbols hex ++ chk) syms in
    record {
      lower =
          lower_joined (prefix_of id) (payload_symbols hex ++ chk)
            (tolower_string-eq_of_plain _ plain) (tolower_string-eq_of_plain _ plain');
      is_base32 = base32_matches (payload_symbols hex ++ chk) net no_type syms size;
      not_hex = hex_differs _ net;
      no_digits = unprefixed _ net;
      split =
          unfold join in
          split_string-join b':' (prefix_of id) ((payload_symbols hex ++ chk) ∷ [])
            (without_separator _ plain, (without_separator _ plain', tt));
      net = refl;
      last = unfold last_part in refl;
      eight = check.1;
      several = omega arith;
      few = omega arith;
      named = refl;
    }

-- The compact text of the address of twenty bytes, on a network whose id is below 2 ^ 31, is read
-- back as that address by `New`, whatever the object was before. The network that is asked for has no
-- effect: the address is on the network of its text also where another one is asked for.
pub new-get_base32_address :
    (a : Address) (hex : Bytes) (id network_id : ℕ)
    → IsHex20 hex
    → id < 2 ^ 31
    → new a (get_base32_address (address_of hex id)) network_id ≡ ok (address_of hex id)
new-get_base32_address a hex id network_id h small =
    let chk = checksum_symbols-IsCheck hex id in
    rw text (
      new-made a hex id h (omega arith) _ _ network_id
        (base32-SplitsInto hex (checksum_symbols hex id) id h chk small))
  where
    text :
        get_base32_address (address_of hex id)
        ≡ prefix_of id ++ (b':' ∷ (payload_symbols hex ++ checksum_symbols hex id))
    text = unfold get_base32_address address_of payload_symbols checksum_symbols Body.string in refl
