-- ===== src/Examples/Toys.antt =====
-- Libraries that do what is documented of them, to run the code of the keys.
use cpp_conflux_sdk.Common.{
  subst, ℕ, zero, suc, ◌+◌, ◌%◌, ◌≡◌, refl, ap, sym, ◌∙◌, Option, none, some, [], ◌∷◌, ◌++◌, arith,
  Bytes, length, replicate, length-replicate, All, IsByte, ltb, if◌then◌else◌, Bool-cases, inl, inr,
  Option-cases,
}
use cpp_conflux_sdk.FixedHash.{copy_left}
use cpp_conflux_sdk.Keys.{Libraries}
use cpp_conflux_sdk.Keys.Json.{Value}
use cpp_conflux_sdk.Keys.Envelope.RoundTrip.{IsDocumented, length-copy_left}

-- A cipher that changes nothing, and fails for what is no byte.
abbrev pub before : ℕ → Option Bytes → Option Bytes
before b none = none
before b (some p) = some (b ∷ p)

abbrev pub only_bytes : Bytes → Option Bytes
only_bytes [] = some []
only_bytes (b ∷ p) = if ltb b 256 then before b (only_bytes p) else none

only_bytes-some : (p c : Bytes) → only_bytes p ≡ some c → (c ≡ p) × All IsByte c
only_bytes-some [] c h = let same : [] ≡ c = cc in (sym same, subst (All IsByte) same tt)
only_bytes-some (b ∷ p) c h = elim (Bool-cases (ltb b 256)) [
  | inl byte ↦ elim (Option-cases (only_bytes p)) [
    | inl nothing ↦ let wrong : ◌≡◌ {A = Option Bytes} none (some c) = rw (byte, nothing) at h in cc
    | inr (q, found) ↦
        let whole : some (b ∷ q) ≡ some c = rw (byte, found) at h in
        let same : b ∷ q ≡ c = cc in
        let (plain, bytes) = only_bytes-some p q found in
        (sym same ∙ ap (λ (t : Bytes). b ∷ t) plain, subst (All IsByte) same (ground arith, bytes))
  ]
  | inr more ↦ let wrong : ◌≡◌ {A = Option Bytes} none (some c) = rw more at h in cc
]

abbrev pub sum : Bytes → ℕ
sum [] = 0
sum (b ∷ d) = b + sum d

abbrev pub toy_hash : Bytes → Bytes
toy_hash d = replicate 32 (sum d % 256)

replicate-IsByte : (n b : ℕ) → IsByte b → All IsByte (replicate n b)
replicate-IsByte zero b h = tt
replicate-IsByte (suc n) b h = (h, replicate-IsByte n b h)

-- A text is the value itself; a derived key begins with the password.
abbrev pub toys : Libraries Value
toys = record {
  write = λ pretty v. v;
  read = λ v. v;
  bytes_of = λ v. [];
  pbkdf2_derive = λ pass salt n dk_len. some (copy_left dk_len (pass ++ salt));
  scrypt_derive = λ pass salt n r p dk_len. some (copy_left dk_len (pass ++ salt));
  ctr_encrypt = λ key iv p. only_bytes p;
  ctr_decrypt = λ key iv c. some c;
  to_public = λ s. copy_left 64 s;
  join = λ path name. path ++ (47 ∷ name);
  to_lower = λ s. s;
  keccak = toy_hash;
}

pub toys-IsDocumented : IsDocumented toys
toys-IsDocumented = record {
  read_written = λ pretty v. refl;
  pbkdf2_length = λ pass salt n dk_len key h.
      let same : copy_left dk_len (pass ++ salt) ≡ key = cc in
      ap (λ (t : Bytes). length t) (sym same) ∙ length-copy_left dk_len (pass ++ salt);
  scrypt_length = λ pass salt n r p dk_len key h.
      let same : copy_left dk_len (pass ++ salt) ≡ key = cc in
      ap (λ (t : Bytes). length t) (sym same) ∙ length-copy_left dk_len (pass ++ salt);
  ctr_undone = λ key iv p c h. ap some (only_bytes-some p c h).0;
  ctr_bytes = λ key iv p c h. (only_bytes-some p c h).1;
  keccak_bytes = λ d. replicate-IsByte 32 (sum d % 256) (omega arith);
  keccak_length = λ d. length-replicate {A = ℕ} 32 (sum d % 256);
}
