-- ===== src/Transaction/Signing.antt =====
-- libcfxcore/TransactionBase: hashing, signing, and the sender that a signature tells. The hash of the
-- signed transaction and the sender are kept once they are known.
use cpp_conflux_sdk.Common.Outcome.{
  Outcome, ok, throw, secret_is_empty, transaction_is_unsigned, invalid_signature, ◌>>=◌,
}
use cpp_conflux_sdk.Common.{
  ℕ, Bool, false, not, ◌&&◌, ◌||◌, Option, none, some, [], ◌∷◌, Bytes, drop, take, replicate, ltb,
  leb, ◌==◌, if◌then◌else◌,
}
use cpp_conflux_sdk.CommonData.Endian.{from_big_endian}
use cpp_conflux_sdk.Rlp.Stream.{empty, finished}
use cpp_conflux_sdk.Transaction.{
  Transaction, Crypto, Signature, IncludeSignature, without_signature, with_signature, stream_rlp,
}

-- The test of a hash as a condition: some byte is not zero.
unfoldable pub nonzero : Bytes → Bool
nonzero [] = false
nonzero (b ∷ s) = not (b == 0) || nonzero s

-- The bound of `r` and `s`. Hashes of one size are ordered as their numbers are.
abbrev pub s_max : ℕ
s_max = 0xfffffffffffffffffffffffffffffffebaaedce6af48a03bbfd25e8cd0364141

unfoldable pub is_valid : Signature → Bool
is_valid sig =
    let r = from_big_endian 256 sig.r in
    let s = from_big_endian 256 sig.s in
    leb sig.v 1 && (ltb 0 r && (ltb 0 s && (ltb r s_max && ltb s s_max)))

pub is_zero_signature : ℕ → ℕ → Bool
is_zero_signature r s = r == 0 && s == 0

pub has_zero_signature : Transaction → Bool
has_zero_signature t = elim t.vrs [
  | none ↦ false
  | some sig ↦ is_zero_signature (from_big_endian 256 sig.r) (from_big_endian 256 sig.s)
]

-- The bytes of a transaction: `RLPStream s; streamRLP(s, _sig); s.out()`.
unfoldable pub streamed : Transaction → IncludeSignature → Outcome Bytes
streamed t sig = stream_rlp t sig empty >>= finished

module _ (c : Crypto) where
  unfoldable pub sha3 : Transaction → IncludeSignature → Outcome (Bytes × Transaction)
  sha3 t without_signature = streamed t without_signature >>= λ d. ok (c.keccak d, t)
  sha3 t with_signature =
      let fresh =
        streamed t with_signature >>= λ d. ok (c.keccak d, record t { hash_with = c.keccak d }) in
      if nonzero t.hash_with then ok (t.hash_with, t) else fresh

  -- `sign`: a signature that is not valid is dropped, and the one before stays.
  unfoldable pub sign : Transaction → Bytes → Outcome Transaction
  sign t priv = sha3 t without_signature >>= λ hash.
      let sig = c.sign_hash priv hash.0 in
      ok (if is_valid sig then record hash.1 { vrs = some sig } else hash.1)

  unfoldable pub sign_transaction : Transaction → Outcome (Bytes × Transaction)
  sign_transaction t =
      let signed = sign t t.secret >>= λ t'. streamed t' with_signature >>= λ d. ok (d, t') in
      if not (nonzero t.secret) then throw secret_is_empty else signed

  unfoldable pub sign_transaction_with_secret : Transaction → Bytes → Outcome (Bytes × Transaction)
  sign_transaction_with_secret t secret = sign_transaction (record t { secret = secret })

  -- In `sender`: what the signature recovers, if there is one.
  unfoldable pub recovered : Transaction → Signature → Outcome (Bytes × Transaction)
  recovered t sig = sha3 t without_signature >>= λ hash.
      let p = c.recover sig hash.0 in
      let addr = take 20 (drop 12 (c.keccak p)) in
      if not (nonzero p)
      then throw invalid_signature
      else ok (addr, record hash.1 { sender_cache = some addr })

  -- `if (!m_vrs) throw`, and the rest of `sender`.
  unfoldable pub sender_by : Transaction → Option Signature → Outcome (Bytes × Transaction)
  sender_by t none = throw transaction_is_unsigned
  sender_by t (some sig) = recovered t sig

  -- `if (!m_sender.is_initialized())`.
  unfoldable pub sender_with : Transaction → Option Bytes → Outcome (Bytes × Transaction)
  sender_with t (some addr) = ok (addr, t)
  sender_with t none =
      let max_address = replicate 20 0xff in
      if has_zero_signature t
      then ok (max_address, record t { sender_cache = some max_address })
      else sender_by t t.vrs

  unfoldable pub sender : Transaction → Outcome (Bytes × Transaction)
  sender t = sender_with t t.sender_cache
