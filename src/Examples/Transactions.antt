-- ===== src/Examples/Transactions.antt =====
-- A transaction with a stand-in for hashing and for the curve.
use cpp_conflux_sdk.Common.Outcome.{ok, ◌>>=◌}
use cpp_conflux_sdk.Common.{
  ◌-◌, ◌^◌, ◌<◌, ◌≡◌, refl, none, some, [], ◌∷◌, arith, codes, length, replicate,
}
use cpp_conflux_sdk.CommonData.Endian.{
  to_big_endian, bytes_required, count_bytes, to_compact_big_endian, from_big_endian,
  from_big_endian_loop,
}
use cpp_conflux_sdk.Cfxaddress.Address.{blank}
use cpp_conflux_sdk.Rlp.Item.{encode, encode_str, head}
use cpp_conflux_sdk.Transaction.{
  Transaction, Signature, Crypto, with_signature, contract_creation, message_call, with_nonce,
}
use cpp_conflux_sdk.Transaction.Signing.{streamed, nonzero, is_valid, sha3, sign_transaction}
use cpp_conflux_sdk.Transaction.Encodes.{fields, signed_fields, streamed-signed_fields}
use cpp_conflux_sdk.Transaction.Determines.{IsWide, recipient, streamed_determines}
use cpp_conflux_sdk.Transaction.Signed.{signature_of, sign_transaction-signed_fields, sha3_stale}

abbrev signature : Signature
signature = record { r = 1 ∷ []; s = 2 ∷ []; v = 1 }

-- Every hash is the same, and so is every signature.
abbrev stand_in : Crypto
stand_in = record {
  keccak = λ d. replicate 32 7;
  sign_hash = λ secret hash. signature;
  recover = λ sig hash. replicate 64 9;
}

abbrev creation : Transaction
creation = record {
  from = replicate 20 0;
  storage_limit = 5;
  epoch_height = 300;
  chain_id = 1;
  vrs = none;
  nonce = 4;
  value = 0;
  receive_address = replicate 20 0;
  cfx_receive_address = blank 0 1;
  gas_price = 1;
  gas = 200;
  data_bytes = codes "code";
  sender_cache = none;
  hash_with = replicate 32 0;
  kind = contract_creation;
  secret = replicate 32 3;
}

abbrev call : Transaction
call = record creation { kind = message_call; receive_address = replicate 20 0x1c }

abbrev signed_creation : Transaction
signed_creation = record creation { vrs = some signature }

fields_small : length (encode (fields creation)) < 2 ^ 64 - 1 - 0x100
unfolding fields encode encode_str head to_compact_big_endian to_big_endian bytes_required
    count_bytes
fields_small = omega arith

signed_small : length (encode (signed_fields creation signature)) < 2 ^ 64
unfolding signed_fields fields encode encode_str head to_compact_big_endian to_big_endian
    bytes_required count_bytes from_big_endian from_big_endian_loop
signed_small = omega arith

call_small : length (encode (fields call)) < 2 ^ 64 - 1 - 0x100
unfolding fields encode encode_str head to_compact_big_endian to_big_endian bytes_required
    count_bytes
call_small = omega arith

signed_call_small :
    length (encode (signed_fields (record call { vrs = some signature }) signature)) < 2 ^ 64
unfolding signed_fields fields encode encode_str head to_compact_big_endian to_big_endian
    bytes_required count_bytes from_big_endian from_big_endian_loop
signed_call_small = omega arith

call-IsWide : IsWide call
call-IsWide = record {
  nonce_lt = omega arith;
  gas_price_lt = omega arith;
  gas_lt = omega arith;
  value_lt = omega arith;
  storage_limit_lt = omega arith;
  epoch_height_lt = omega arith;
  chain_id_lt = omega arith;
  address_length = refl;
}

streamed-signed_fields_example :
    streamed (record call { vrs = some signature }) with_signature
    ≡ ok (encode (signed_fields (record call { vrs = some signature }) signature))
streamed-signed_fields_example =
    streamed-signed_fields (record call { vrs = some signature }) signature refl signed_call_small

streamed_determines_example :
    (call.nonce ≡ call.nonce)
    × (call.gas_price ≡ call.gas_price)
    × (call.gas ≡ call.gas)
    × (recipient call.kind call.receive_address ≡ recipient call.kind call.receive_address)
    × (call.value ≡ call.value)
    × (call.storage_limit ≡ call.storage_limit)
    × (call.epoch_height ≡ call.epoch_height)
    × (call.chain_id ≡ call.chain_id)
    × (call.data_bytes ≡ call.data_bytes)
streamed_determines_example =
    streamed_determines call call call-IsWide call-IsWide call_small call_small refl

sign_transaction-signed_fields_example :
    sign_transaction stand_in creation
    ≡ ok (
      encode (signed_fields creation (signature_of stand_in creation)),
      record creation { vrs = some (signature_of stand_in creation) },
    )
sign_transaction-signed_fields_example =
    sign_transaction-signed_fields stand_in creation (unfold nonzero in refl)
      (unfold signature_of is_valid from_big_endian from_big_endian_loop in refl)
      (unfold signature_of in signed_small)

streamed-signed :
    streamed signed_creation with_signature ≡ ok (encode (signed_fields signed_creation signature))
streamed-signed =
    streamed-signed_fields signed_creation signature refl
      (unfold signed_fields fields in signed_small)

sha3_stale_example :
    (sha3 stand_in signed_creation with_signature >>= λ first.
    sha3 stand_in (with_nonce first.1 9) with_signature >>= λ again. ok again.0)
    ≡ ok (replicate 32 7)
sha3_stale_example =
    sha3_stale stand_in signed_creation (encode (signed_fields signed_creation signature)) 9
      streamed-signed (unfold nonzero in refl) (unfold nonzero in refl)
