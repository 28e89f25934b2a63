-- ===== src/Examples/Managers.antt =====
-- The manager of keys at concrete values.
use cpp_conflux_sdk.Common.Outcome.{Outcome, ok, ◌>>=◌}
use cpp_conflux_sdk.Common.{
  ℕ, Option, ◌+◌, ◌^◌, ◌≤◌, ◌<◌, ◌≡◌, refl, some, none, [], ◌∷◌, ◌++◌, arith, Bytes, codes,
  replicate, length, if◌then◌else◌, ltb,
}
use cpp_conflux_sdk.CommonData.Endian.{
  to_compact_big_endian, to_big_endian, bytes_required, count_bytes,
}
use cpp_conflux_sdk.FixedHash.{of_bytes, copy_left}
use cpp_conflux_sdk.Rlp.Item.{encode, encode_str, head}
use cpp_conflux_sdk.Rlp.Stream.{empty, finished}
use cpp_conflux_sdk.Keys.Json.{Value}
use cpp_conflux_sdk.Keys.Envelope.{pbkdf2, encrypt_sym}
use cpp_conflux_sdk.Keys.Store.{SecretStore}
use cpp_conflux_sdk.Keys.Manager.{
  KeyInfo, KeyManager, stream_keys, unknown_password, uuid_of, hash_password, cache_password,
  is_right, ask, cached_or, get_password_of_hash, dont_know_throw,
}
use cpp_conflux_sdk.Keys.Manager.Passwords.{
  IsSound, Answers, counted, get_password_of_hash-IsSound, get_password_of_hash_bound,
}
use cpp_conflux_sdk.Keys.Manager.KeysFile.{contents, stream_keys-encode, info_items, hint_items}
use cpp_conflux_sdk.Examples.Toys.{toys}

abbrev identifier : Bytes
identifier = replicate 16 0xab

abbrev an_address : Bytes
an_address = replicate 20 0x1c

abbrev an_info : KeyInfo
an_info = record {
  pass_hash = unknown_password;
  account_name = codes "savings";
  password_hint = [];
}

abbrev keyless : SecretStore Value
keyless = record { cached = []; keys = []; path = codes "/keys"; effects = [] }

abbrev manager : KeyManager Value
manager = record {
  uuid_lookup = (identifier, an_address) ∷ [];
  addr_lookup = (an_address, identifier) ∷ [];
  key_info = (an_address, an_info) ∷ [];
  password_hints = (unknown_password, codes "a cave") ∷ [];
  cached_passwords = [];
  default_password_deprecated = codes "default";
  keys_file = codes "/keys.info";
  keys_file_key = replicate 16 0;
  master = unknown_password;
  store = keyless;
  written = [];
}

-- The third answer is the password.
abbrev answers : ℕ → Bytes
answers n = if ltb n 2 then codes "wrong" else codes "open sesame"

abbrev right_hash : Bytes
right_hash = codes "open sesamedefault" ++ replicate 14 0

manager-IsSound : IsSound toys manager
manager-IsSound h p found = absurd (let wrong : ◌≡◌ {A = Option Bytes} none (some p) = found in cc)

abbrev asked : KeyManager Value
asked = record manager { cached_passwords = (right_hash, codes "open sesame") ∷ [] }

password_asked :
    get_password_of_hash toys (counted toys answers) right_hash manager 0
    ≡ ok (codes "open sesame", asked, 3)
unfolding get_password_of_hash cached_or ask is_right cache_password hash_password pbkdf2 of_bytes
    copy_left
password_asked = refl

get_password_of_hash-IsSound_example :
    IsSound toys asked × Answers toys right_hash (codes "open sesame") manager
get_password_of_hash-IsSound_example =
    get_password_of_hash-IsSound toys (counted toys answers) right_hash manager 0
      (codes "open sesame") asked 3 manager-IsSound password_asked

get_password_of_hash_bound_example : 3 ≤ 0 + 10
get_password_of_hash_bound_example =
    get_password_of_hash_bound toys answers right_hash manager 0 (codes "open sesame") asked 3
      password_asked

contents_small : length (encode (contents manager)) < 2 ^ 64
unfolding contents info_items hint_items uuid_of encode encode_str head to_compact_big_endian
    to_big_endian bytes_required count_bytes
contents_small = omega arith

stream_keys-encode_example :
    (stream_keys manager empty >>= finished) ≡ ok (encode (contents manager))
stream_keys-encode_example = stream_keys-encode manager contents_small

abbrev master_key : Bytes
master_key = codes "master" ++ replicate 10 1

abbrev master_hash : Bytes
master_hash = codes "masterdefault" ++ replicate 19 0

abbrev salted : KeyManager Value
salted = record manager {
  cached_passwords = (master_hash, codes "master") ∷ [];
  master = master_hash;
  written = (codes "/keys.info.salt", replicate 32 1) ∷ [];
}

abbrev written_back : KeyManager Value
written_back = record salted {
  written =
      (codes "/keys.info.salt", replicate 32 1)
      ∷ ((
        codes "/keys.info",
        encrypt_sym toys master_key (replicate 16 0) (encode (contents salted)),
      )
          ∷ []);
  keys_file_key = master_key;
}

-- What is left of the call when the coding is known.
abbrev after_coding : Bytes → Outcome (KeyManager Value)
after_coding out =
    get_password_of_hash toys dont_know_throw master_hash
      (record salted {
        written =
            (codes "/keys.info.salt", replicate 32 1)
            ∷ ((codes "/keys.info", encrypt_sym toys master_key (replicate 16 0) out) ∷ []);
        keys_file_key = master_key;
      })
      tt
    >>= λ r. cache_password toys r.0 r.1
