-- ===== src/Cfxaddress.antt =====
-- libcfxcore/types/cfxaddress: the base32 addresses of the network. A child for each file of the
-- folder; lib.cpp is in two, `Convert` and `Polymod`.
pub mod Convert
pub mod Polymod
pub mod NetworkType
pub mod AddressType
pub mod VersionByte
pub mod Body
pub mod Checksum
pub mod Regex
pub mod Address
