-- ===== src/Examples/Orders.antt =====
-- Addresses as keys, and the null addresses.
use cpp_conflux_sdk.Common.{◌≡◌, refl, true}
use cpp_conflux_sdk.Cfxaddress.NetworkType
use cpp_conflux_sdk.Cfxaddress.Address.{Address}
use cpp_conflux_sdk.Cfxaddress.Address.Methods.{get_verbose_base32_address, text_less, less}
use cpp_conflux_sdk.Cfxaddress.Address.Made.{address_of}
use cpp_conflux_sdk.Cfxaddress.Address.Null.{zeros}

main : Address
main = address_of zeros 1029

test : Address
test = address_of zeros 1

own : Address
own = address_of zeros 5

main_below_test : less main test ≡ true
unfolding less text_less get_verbose_base32_address main test address_of NetworkType.of_id
main_below_test = refl

test_below_own : less test own ≡ true
unfolding less text_less get_verbose_base32_address test own address_of NetworkType.of_id
test_below_own = refl
