-- ===== src/Rlp.antt =====
-- libdevcore/RLP: the coding of byte strings and nested lists. The constants of RLP.h.
pub mod Item
pub mod Stream
pub mod Reader
use cpp_conflux_sdk.Common.{ℕ}

abbrev pub max_length_bytes : ℕ
max_length_bytes = 8

abbrev pub data_imm_len_start : ℕ
data_imm_len_start = 0x80

abbrev pub list_start : ℕ
list_start = 0xc0

-- `c_rlpListStart - c_rlpDataImmLenStart - c_rlpMaxLengthBytes`, and the byte in front of a length.
abbrev pub data_imm_len_count : ℕ
data_imm_len_count = 56

abbrev pub data_ind_len_zero : ℕ
data_ind_len_zero = 0xb7

abbrev pub list_imm_len_count : ℕ
list_imm_len_count = 56

abbrev pub list_ind_len_zero : ℕ
list_ind_len_zero = 0xf7
