-- ===== src/CommonData.antt =====
-- libdevcore/CommonData: numbers as bytes, and hexadecimal text.
pub mod Endian
pub mod HexText
pub mod Sequences
