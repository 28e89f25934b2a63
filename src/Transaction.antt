-- ===== src/Transaction.antt =====
-- libcfxcore/TransactionBase: a transaction, the bytes that stand for it, its hash, its signature and
-- its sender. Hashing and the curve are parameters: Keccak-256, the recoverable signature of a hash
-- under a secret, and the public key that a signature recovers, of which all bytes are zero if there
-- is none. A `u256` is a number, a hash is its bytes.
pub mod Signing
pub mod Encodes
pub mod Determines
pub mod Signed
use cpp_conflux_sdk.Common.Outcome.{
  Outcome, ok, throw, no_value, secret_is_empty, transaction_is_unsigned, invalid_signature, ◌>>=◌,
}
use cpp_conflux_sdk.Common.{
  ℕ, ◌-◌, ◌^◌, Bool, true, false, not, ◌&&◌, ◌||◌, Option, none, some, [], ◌∷◌, Bytes, length, drop,
  replicate, ltb, leb, ◌==◌, if◌then◌else◌,
}
use cpp_conflux_sdk.CommonData.Endian.{from_big_endian}
use cpp_conflux_sdk.Cfxaddress.Address.{Address}
use cpp_conflux_sdk.Cfxaddress.Address.Methods.{to_eth_common_addr}
use cpp_conflux_sdk.Rlp.Stream.{Stream, empty, append, append_int, append_list, finished}

pub data IncludeSignature : Type 0 where
  without_signature with_signature : IncludeSignature

pub data Kind : Type 0 where
  null_transaction contract_creation message_call : Kind

-- `SignatureStruct`.
pub record Signature : Type 0 where
  pub r : Bytes
  pub s : Bytes
  pub v : ℕ

pub record Crypto : Type 0 where
  pub keccak : Bytes → Bytes
  pub sign_hash : Bytes → Bytes → Signature
  pub recover : Signature → Bytes → Bytes

-- `TransactionBase`.
pub record Transaction : Type 0 where
  pub from : Bytes
  pub storage_limit : ℕ
  pub epoch_height : ℕ
  pub chain_id : ℕ
  pub vrs : Option Signature
  pub nonce : ℕ
  pub value : ℕ
  pub receive_address : Bytes
  pub cfx_receive_address : Address
  pub gas_price : ℕ
  pub gas : ℕ
  pub data_bytes : Bytes
  pub sender_cache : Option Bytes
  pub hash_with : Bytes
  pub kind : Kind
  pub secret : Bytes

abbrev pub invalid256 : ℕ
invalid256 = 2 ^ 256 - 1

-- The constructor of a message call.
pub message_to : Address → ℕ → Bytes → Transaction
message_to dest value secret = record {
  from = replicate 20 0;
  storage_limit = invalid256;
  epoch_height = invalid256;
  chain_id = invalid256;
  vrs = none;
  nonce = invalid256;
  value = value;
  receive_address = to_eth_common_addr dest;
  cfx_receive_address = dest;
  gas_price = invalid256;
  gas = invalid256;
  data_bytes = [];
  sender_cache = none;
  hash_with = replicate 32 0;
  kind = message_call;
  secret = secret;
}

-- The constructor of a contract creation; `address` is the address that is constructed by default.
pub creation_of : Address → Bytes → Bytes → Transaction
creation_of address data' secret = record {
  from = replicate 20 0;
  storage_limit = invalid256;
  epoch_height = invalid256;
  chain_id = invalid256;
  vrs = none;
  nonce = invalid256;
  value = 0;
  receive_address = replicate 20 0;
  cfx_receive_address = address;
  gas_price = invalid256;
  gas = invalid256;
  data_bytes = data';
  sender_cache = none;
  hash_with = replicate 32 0;
  kind = contract_creation;
  secret = secret;
}

-- The setters, which leave every other member as it is.
pub with_receive : Transaction → Address → Transaction
with_receive t addr = record t { cfx_receive_address = addr }

pub with_to : Transaction → Address → Transaction
with_to t addr = record t { cfx_receive_address = addr }

pub with_nonce : Transaction → ℕ → Transaction
with_nonce t value = record t { nonce = value }

pub with_chain_id : Transaction → ℕ → Transaction
with_chain_id t value = record t { chain_id = value }

pub with_gas_price : Transaction → ℕ → Transaction
with_gas_price t value = record t { gas_price = value }

pub with_epoch_height : Transaction → ℕ → Transaction
with_epoch_height t value = record t { epoch_height = value }

pub with_gas : Transaction → ℕ → Transaction
with_gas t value = record t { gas = value }

pub with_storage_limit : Transaction → ℕ → Transaction
with_storage_limit t value = record t { storage_limit = value }

pub with_value : Transaction → ℕ → Transaction
with_value t value = record t { value = value }

pub with_data : Transaction → Bytes → Transaction
with_data t data' = record t { data_bytes = data' }

pub with_secret : Transaction → Bytes → Transaction
with_secret t value = record t { secret = value }

-- What is appended for the receiver.
unfoldable pub receiver_bytes : Transaction → Bytes
receiver_bytes t = elim t.kind [ message_call ↦ t.receive_address | _ ↦ [] ]

-- The block of `streamRLP` that appends the nine fields; empty data is appended as the empty string.
pub stream_fields : Transaction → Stream → Outcome Stream
stream_fields t st = do
  st ← append_list st 9
  st ← append_int st t.nonce
  st ← append_int st t.gas_price
  st ← append_int st t.gas
  st ← append st (receiver_bytes t) false
  st ← append_int st t.value
  st ← append_int st t.storage_limit
  st ← append_int st t.epoch_height
  st ← append_int st t.chain_id
  append st t.data_bytes false

-- Its last block; reading a signature that is not there is a failed assertion.
pub stream_signature : Transaction → Stream → Outcome Stream
stream_signature t st = elim t.vrs [
  | none ↦ throw no_value
  | some sig ↦ do
    st ← append_int st sig.v
    st ← append_int st (from_big_endian 256 sig.r)
    append_int st (from_big_endian 256 sig.s)
]

pub stream_rlp : Transaction → IncludeSignature → Stream → Outcome Stream
stream_rlp t without_signature st = stream_fields t st
stream_rlp t with_signature st = do
  st ← append_list st 4
  st ← stream_fields t st
  stream_signature t st
