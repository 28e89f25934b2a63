-- ===== src/Cfxaddress/Address/Rejects.antt =====
-- Texts that are not taken as asked, and what comparing leaves out.
use cpp_conflux_sdk.Common.Outcome.{ok}
use cpp_conflux_sdk.Common.{
  ℕ, ◌^◌, ◌<◌, ◌≡◌, ◌≢◌, refl, ◌∙◌, true, false, ◌∷◌, ◌++◌, Bytes, bytes_eq_refl,
}
use cpp_conflux_sdk.StringUtil.{tolower_string}
use cpp_conflux_sdk.Cfxaddress.Body.{Body}
use cpp_conflux_sdk.Cfxaddress.Address.{
  Address, after_base32, marked_invalid, new, hex_pattern, base32_pattern,
}
use cpp_conflux_sdk.Cfxaddress.Address.Methods.{equals, is_valid}
use cpp_conflux_sdk.Cfxaddress.Address.Made.{IsHex20}
use cpp_conflux_sdk.Cfxaddress.Address.Texts.{payload_symbols, checksum_symbols, IsCheck}
use cpp_conflux_sdk.Cfxaddress.Address.Parse.{check_base32_other}
use cpp_conflux_sdk.Cfxaddress.Address.RoundTrip.{prefix_of, base32-SplitsInto, new-check}
use cpp_conflux_sdk.Cfxaddress.Regex.{regex_match}

-- `operator==` does not look at the bodies: two addresses of one network, type and checksum compare
-- equal whatever their bodies are.
pub equals_ignores_body :
    (a rv : Address) (b c : Body)
    → rv.network_type ≡ a.network_type
    → rv.address_type ≡ a.address_type
    → rv.checksum ≡ a.checksum
    → equals (record a { body = b }) (record rv { body = c }) ≡ true
unfolding equals
equals_ignores_body a rv b c net type sum = rw (net, type, sum) (simp bytes_eq_refl)

after_failure :
    (a : Address) (lower : Bytes) (network_id : ℕ)
    → after_base32 lower network_id (a, 0) ≡ ok (marked_invalid a)
unfolding after_base32
after_failure a lower network_id = refl

marked_invalid_lem : (a : Address) → is_valid (marked_invalid a) ≡ false
unfolding is_valid marked_invalid
marked_invalid_lem a = refl

-- A compact text whose last eight symbols are not the checksum of its network and payload: `New`
-- returns without an exception, and the address is not valid, whatever network is asked for.
pub new_bad_checksum :
    (a : Address) (hex chk : Bytes) (id network_id : ℕ)
    → IsHex20 hex
    → IsCheck chk
    → id < 2 ^ 31
    → chk ≢ checksum_symbols hex id
    → (x : Address) × (new a (prefix_of id ++ (b':' ∷ (payload_symbols hex ++ chk))) network_id
        ≡ ok x)
      × (is_valid x ≡ false)
new_bad_checksum a hex chk id network_id h check small ne =
    let text = prefix_of id ++ (b':' ∷ (payload_symbols hex ++ chk)) in
    let (a', failed) = check_base32_other a hex chk id ne in
    let splits = base32-SplitsInto hex chk id h check small in
    (
      marked_invalid a',
      new-check a hex id h text chk _ network_id splits
          ∙ rw failed (after_failure a' text network_id),
      marked_invalid_lem a',
    )

-- A text that matches neither pattern makes an address that is not valid.
pub new_no_match :
    (a : Address) (text : Bytes) (network_id : ℕ)
    → regex_match (tolower_string text) hex_pattern ≡ false
    → regex_match (tolower_string text) base32_pattern ≡ false
    → (x : Address) × (new a text network_id ≡ ok x) × (is_valid x ≡ false)
unfolding new
new_no_match a text network_id no_hex no_base32 =
    (marked_invalid a, rw (no_hex, no_base32), marked_invalid_lem a)
