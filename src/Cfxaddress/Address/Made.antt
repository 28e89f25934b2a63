-- ===== src/Cfxaddress/Address/Made.antt =====
-- The address that is made of twenty bytes and a network, and its construction.
use cpp_conflux_sdk.Common.Outcome.{ok}
use cpp_conflux_sdk.Common.{ℕ, ◌^◌, ◌<◌, ◌≡◌, refl, ap, ◌∙◌, arith, Bytes, length, All, IsByte}
use cpp_conflux_sdk.Cfxaddress.NetworkType
use cpp_conflux_sdk.Cfxaddress.NetworkType.{to_network_id}
use cpp_conflux_sdk.Cfxaddress.NetworkType.RoundTrip.{to_network_id-of_id}
use cpp_conflux_sdk.Cfxaddress.AddressType.{calc_address_type}
use cpp_conflux_sdk.Cfxaddress.VersionByte.{VersionByte, to_byte, calc_version_byte, lookup_or_zero}
use cpp_conflux_sdk.Cfxaddress.Body
use cpp_conflux_sdk.Cfxaddress.Body.{Body, to_hex_address}
use cpp_conflux_sdk.Cfxaddress.Body.RoundTrip.{to_hex_address-of_bytes, body-Fits, length-of_bytes}
use cpp_conflux_sdk.Cfxaddress.Checksum.{calc_checksum}
use cpp_conflux_sdk.Cfxaddress.Convert.BitStream.{Fits}
use cpp_conflux_sdk.Cfxaddress.Address.{Address, set_cache, new_from_bytes}

-- The payload of twenty bytes: the version byte is 0.
unfoldable pub payload : Bytes → Body
payload hex = Body.of_bytes (calc_version_byte hex) hex

-- The address of twenty bytes on a network, member by member.
unfoldable pub address_of : Bytes → ℕ → Address
address_of hex id = record {
  network_type = NetworkType.of_id id;
  address_type = calc_address_type hex;
  body = payload hex;
  checksum = calc_checksum (NetworkType.of_id id) (payload hex);
  hex = hex;
  network_id = id;
}

abbrev pub IsHex20 : Bytes → Type 0
IsHex20 hex = All IsByte hex × (length hex ≡ 20)

version_zero : (hex : Bytes) → length hex ≡ 20 → to_byte (calc_version_byte hex) ≡ 0
unfolding calc_version_byte to_byte
version_zero hex h = rw h (unfold lookup_or_zero in refl)

pub payload-hex : (hex : Bytes) → IsHex20 hex → (to_hex_address (payload hex)).1 ≡ hex
unfolding payload
payload-hex hex (bytes, twenty) =
    ap (λ (r : VersionByte × Bytes). r.1)
      (to_hex_address-of_bytes (calc_version_byte hex) hex (omega (arith, version_zero hex twenty))
        bytes)

pub payload-Fits :
    (hex : Bytes) → IsHex20 hex → Fits 5 (payload hex).body × (length (payload hex).body ≡ 34)
unfolding payload
payload-Fits hex (bytes, twenty) =
    let small : to_byte (calc_version_byte hex) < 256 = omega (arith, version_zero hex twenty) in
    (
      body-Fits (calc_version_byte hex) hex small bytes,
      omega (arith, length-of_bytes (calc_version_byte hex) hex small bytes, twenty),
    )

-- Filling the cache of an address that has that network and that body.
pub set_cache-payload :
    (a : Address) (hex : Bytes) (id : ℕ)
    → IsHex20 hex
    → id < 2 ^ 32
    → a.network_type ≡ NetworkType.of_id id
    → a.body ≡ payload hex
    → set_cache a ≡ ok (record a { hex = hex; network_id = id })
unfolding set_cache
set_cache-payload a hex id h small net bod =
    let known : to_network_id a.network_type ≡ ok id =
      ap to_network_id net ∙ to_network_id-of_id id small in
    let cached : (to_hex_address a.body).1 ≡ hex =
      ap (λ (b : Body). (to_hex_address b).1) bod ∙ payload-hex hex h in
    rw (known, cached)

-- An address that is made of twenty bytes has their type, a payload that holds them, the checksum of
-- network and payload, and the bytes and the network's id in its cache, whatever it was before.
pub new_from_bytes-made :
    (a : Address) (hex : Bytes) (id : ℕ)
    → IsHex20 hex
    → id < 2 ^ 32
    → new_from_bytes a hex id ≡ ok (address_of hex id, 1)
unfolding new_from_bytes address_of payload
new_from_bytes-made a hex id h small =
    let made = record a {
      network_type = NetworkType.of_id id;
      address_type = calc_address_type hex;
      body = payload hex;
      checksum = calc_checksum (NetworkType.of_id id) (payload hex);
    } in
    rw (set_cache-payload made hex id h small refl refl)
