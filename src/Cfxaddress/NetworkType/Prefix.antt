-- ===== src/Cfxaddress/NetworkType/Prefix.antt =====
-- The characters of a network's prefix.
use cpp_conflux_sdk.Common.{
  ℕ, ◌^◌, ◌<◌, ◌≡◌, ◌≢◌, refl, ap₂, inl, inr, Bool-cases, [], ◌∷◌, ◌++◌, arith, Bytes, codes,
  length, All, All-append, ◌==◌,
}
use cpp_conflux_sdk.StringUtil.{tolower, tolower_string}
use cpp_conflux_sdk.Cfxaddress.NetworkType.Decimal.{print_int}
use cpp_conflux_sdk.Cfxaddress.NetworkType.Decimal.RoundTrip.{IsDigit, print_int-IsDigit}
use cpp_conflux_sdk.Cfxaddress.NetworkType.{mainnet_id, testnet_id, of_id}

-- A character that lower case leaves alone and that is no separator.
abbrev pub IsPlain : ℕ → Type 0
IsPlain c = (tolower c ≡ c) × (c ≢ b':')

pub tolower_string-eq_of_plain : (s : Bytes) → All IsPlain s → tolower_string s ≡ s
unfolding tolower_string
tolower_string-eq_of_plain [] h = refl
tolower_string-eq_of_plain (c ∷ s) ((lower, _), h) =
    ap₂ (λ (x : ℕ) (t : Bytes). x ∷ t) lower (tolower_string-eq_of_plain s h)

digit-IsPlain : (c : ℕ) → IsDigit c → IsPlain c
unfolding tolower
digit-IsPlain c h = ground arith

digits-IsPlain : (s : Bytes) → All IsDigit s → All IsPlain s
digits-IsPlain [] h = tt
digits-IsPlain (c ∷ s) (hc, h) = (digit-IsPlain c hc, digits-IsPlain s h)

-- The prefix of a network: one of the two names, or `net` and digits.
pub data Prefix : Bytes → Type 0 where
  mainnet : Prefix (codes "cfx")
  testnet : Prefix (codes "cfxtest")
  numbered : (ds : Bytes) → All IsDigit ds → 0 < length ds → Prefix (codes "net" ++ ds)

pub of_id-Prefix : (id : ℕ) → id < 2 ^ 31 → Prefix (of_id id).net_work_type_str
unfolding of_id
of_id-Prefix id h = elim (Bool-cases (id == mainnet_id)) [
  | inl main ↦ rw main mainnet
  | inr other ↦ rw other (elim (Bool-cases (id == testnet_id)) [
    | inl test ↦ rw test testnet
    | inr own ↦
        let (digits, some) = print_int-IsDigit id h in rw own (numbered (print_int id) digits some)
  ])
]

pub Prefix-IsPlain : {s : Bytes} → Prefix s → All IsPlain s
unfolding tolower
Prefix-IsPlain mainnet = ground arith
Prefix-IsPlain testnet = ground arith
Prefix-IsPlain (numbered ds digits some) =
    All-append IsPlain (codes "net") ds (ground arith) (digits-IsPlain ds digits)
