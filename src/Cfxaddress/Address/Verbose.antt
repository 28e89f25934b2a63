-- ===== src/Cfxaddress/Address/Verbose.antt =====
-- The verbose text of a valid address is read back as the address.
use cpp_conflux_sdk.Cfxaddress.Body
use cpp_conflux_sdk.Common.Outcome.{ok}
use cpp_conflux_sdk.Common.{
  ℕ, ◌^◌, ◌<◌, ◌≡◌, refl, sym, ap, append_assoc, true, false, inl, inr, [], ◌∷◌, ◌++◌, arith, Bytes,
  codes, All, bytes_eq_refl,
}
use cpp_conflux_sdk.StringUtil.{tolower}
use cpp_conflux_sdk.StringUtil.Split.{join, split_string-join}
use cpp_conflux_sdk.Cfxaddress.NetworkType.Prefix.{
  IsPlain, Prefix-IsPlain, of_id-Prefix, tolower_string-eq_of_plain,
}
use cpp_conflux_sdk.Cfxaddress.AddressType
use cpp_conflux_sdk.Cfxaddress.AddressType.{AddressType, calc_address_type, named}
use cpp_conflux_sdk.Cfxaddress.AddressType.Kinds.{
  Known, is_null, is_builtin, is_user, is_contract, calc_address_type-cases,
}
use cpp_conflux_sdk.Cfxaddress.Address.{Address, last_part, new}
use cpp_conflux_sdk.Cfxaddress.Address.Methods.{get_verbose_base32_address, is_valid}
use cpp_conflux_sdk.Cfxaddress.Address.Made.{address_of, IsHex20}
use cpp_conflux_sdk.Cfxaddress.Address.Texts.{
  payload_symbols, checksum_symbols, checksum_symbols-IsCheck, symbols_facts, TypePart, null,
  builtin, user, contract, base32_matches, hex_differs, unprefixed, symbols-IsPlain,
}
use cpp_conflux_sdk.Cfxaddress.Address.RoundTrip.{
  prefix_of, SplitsInto, new-made, lower_joined, without_separator,
}

-- The verbose text, whose middle part is a type that the pattern names.
verbose-SplitsInto :
    (hex : Bytes) (id : ℕ)
    → IsHex20 hex
    → id < 2 ^ 31
    → (ty : Bytes) → ty ≡ AddressType.string (calc_address_type hex)
    → All IsPlain ty
    → TypePart (ty ++ (b':' ∷ []))
    → SplitsInto
        (get_verbose_base32_address (address_of hex id))
        hex
        (checksum_symbols hex id)
        id
        (prefix_of id ∷ (ty ∷ ((payload_symbols hex ++ checksum_symbols hex id) ∷ [])))
verbose-SplitsInto hex id h small ty is_ty plain_ty part =
    let check = checksum_symbols-IsCheck hex id in
    let net = of_id-Prefix id small in
    let plain = Prefix-IsPlain net in
    let (syms, size) = symbols_facts hex (checksum_symbols hex id) h check in
    let plain' = symbols-IsPlain (payload_symbols hex ++ checksum_symbols hex id) syms in
    let lower_ty = tolower_string-eq_of_plain ty plain_ty in
    rw text (record {
      lower =
          lower_joined (prefix_of id)
            (ty ++ (b':' ∷ (payload_symbols hex ++ checksum_symbols hex id)))
            (tolower_string-eq_of_plain _ plain)
            (lower_joined ty (payload_symbols hex ++ checksum_symbols hex id) lower_ty
              (tolower_string-eq_of_plain _ plain'));
      is_base32 =
          rw (← append_assoc ty (b':' ∷ []) (payload_symbols hex ++ checksum_symbols hex id))
            (base32_matches (payload_symbols hex ++ checksum_symbols hex id) net part syms size);
      not_hex = hex_differs _ net;
      no_digits = unprefixed _ net;
      split =
          unfold join in
          split_string-join b':' (prefix_of id)
            (ty ∷ ((payload_symbols hex ++ checksum_symbols hex id) ∷ []))
            (
              without_separator _ plain,
              (without_separator _ plain_ty, (without_separator _ plain', tt)),
            );
      net = refl;
      last = unfold last_part in refl;
      eight = check.1;
      several = omega arith;
      few = omega arith;
      named = rw (lower_ty, ← is_ty, bytes_eq_refl ty);
    })
  where
    text :
        get_verbose_base32_address (address_of hex id)
        ≡ prefix_of id ++ (b':' ∷ (ty ++ (b':' ∷ (payload_symbols hex ++ checksum_symbols hex id))))
    text = rw is_ty (
        unfold get_verbose_base32_address address_of payload_symbols checksum_symbols Body.string in
        refl)

verbose_known :
    (hex : Bytes) (id : ℕ) {high : ℕ} {t : AddressType}
    → IsHex20 hex
    → id < 2 ^ 31
    → Known high t
    → calc_address_type hex ≡ t
    → (ty : Bytes) × SplitsInto
        (get_verbose_base32_address (address_of hex id))
        hex
        (checksum_symbols hex id)
        id
        (prefix_of id ∷ (ty ∷ ((payload_symbols hex ++ checksum_symbols hex id) ∷ [])))
verbose_known hex id h small (is_null _) e = (
  codes "type.null",
  verbose-SplitsInto hex id h small (codes "type.null")
      (unfold AddressType.string in sym (ap AddressType.string e)) plain null,
)
  where
    plain : All IsPlain (codes "type.null")
    plain = unfold tolower in ground arith
verbose_known hex id h small (is_builtin _) e = (
  codes "type.builtin",
  verbose-SplitsInto hex id h small (codes "type.builtin")
      (unfold AddressType.string in sym (ap AddressType.string e)) plain builtin,
)
  where
    plain : All IsPlain (codes "type.builtin")
    plain = unfold tolower in ground arith
verbose_known hex id h small (is_user _) e = (
  codes "type.user",
  verbose-SplitsInto hex id h small (codes "type.user")
      (unfold AddressType.string in sym (ap AddressType.string e)) plain user,
)
  where
    plain : All IsPlain (codes "type.user")
    plain = unfold tolower in ground arith
verbose_known hex id h small (is_contract _) e = (
  codes "type.contract",
  verbose-SplitsInto hex id h small (codes "type.contract")
      (unfold AddressType.string in sym (ap AddressType.string e)) plain contract,
)
  where
    plain : All IsPlain (codes "type.contract")
    plain = unfold tolower in ground arith

-- A valid address: also the verbose text of the address of twenty bytes, on a network whose id is
-- below 2 ^ 31, is read back as that address, whatever network is asked for.
pub new-get_verbose_base32_address :
    (a : Address) (hex : Bytes) (id network_id : ℕ)
    → IsHex20 hex
    → id < 2 ^ 31
    → is_valid (address_of hex id) ≡ true
    → new a (get_verbose_base32_address (address_of hex id)) network_id ≡ ok (address_of hex id)
new-get_verbose_base32_address a hex id network_id h small valid =
    elim (calc_address_type-cases hex) [
      | inl known ↦
          let (ty, splits) = verbose_known hex id h small known refl in
          new-made a hex id h (omega arith) _ _ network_id splits
      | inr bad ↦ absurd (invalid_type bad)
    ]
  where
    invalid_type : calc_address_type hex ≡ named AddressType.invalid → ⊥
    invalid_type bad =
        let no_type : is_valid (address_of hex id) ≡ false = unfold is_valid address_of in rw bad in
        cc (valid, no_type)
