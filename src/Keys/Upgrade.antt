-- ===== src/Keys/Upgrade.antt =====
-- libdevcrypto/SecretStore.cpp: the upgrade of the JSON of a key file to version 3.
use cpp_conflux_sdk.Common.Outcome.{Outcome, ok, ◌>>=◌}
use cpp_conflux_sdk.Common.{ℕ, not, ◌&&◌, codes, bytes_eq, ◌==◌, if◌then◌else◌}
use cpp_conflux_sdk.Cfxaddress.NetworkType.Decimal.{stoi}
use cpp_conflux_sdk.Keys.{Libraries}
use cpp_conflux_sdk.Keys.Json.{
  Value, Fields, null, str, obj, other, num, end, field, has, at, set, erase, get_str, get_obj,
  get_int,
}

-- The version that an object tells.
unfoldable pub version_of : Fields → Outcome ℕ
version_of ret =
    let old = get_str (at (codes "Version") ret) >>= λ text. stoi text in
    let new = get_int (at (codes "version") ret) in
    if has (codes "Version") ret then old else if has (codes "version") ret then new else ok 0

-- The fields of `Crypto` under their new name.
unfoldable pub renamed : Fields → Fields
renamed ret =
    if has (codes "Crypto") ret && not (has (codes "crypto") ret)
    then erase (codes "Crypto") (set (codes "crypto") (at (codes "Crypto") ret) ret)
    else ret

-- From version 2 to version 3.
unfoldable pub upgrade2 : Fields → Outcome Fields
upgrade2 ret = do
  c ← get_obj (at (codes "crypto") ret)
  ok (
      set (codes "crypto")
        (obj (
          set (codes "compat") (str (codes "2"))
            (set (codes "cipher") (str (codes "aes-128-ctr")) c)))
        ret)

module _ {Text : Type 0} (l : Libraries Text) where
  -- The loop over the parameters of the key derivation.
  unfoldable pub lower_params : Fields → Fields → Fields
  lower_params end kp = kp
  lower_params (field name v rest) kp =
      lower_params rest (if bytes_eq name (codes "SaltLen") then kp else set (l.to_lower name) v kp)

  -- From version 1 to version 2.
  unfoldable pub upgrade1 : Text → Fields → Outcome Fields
  upgrade1 s old = do
    crypto ← get_obj (at (codes "Crypto") old)
    header ← get_obj (at (codes "KeyHeader") crypto)
    kdf_params ← get_obj (at (codes "KdfParams") header)
    let cp = set (codes "iv") (at (codes "IV") crypto) end
    let kp = lower_params kdf_params (set (codes "salt") (at (codes "Salt") crypto) end)
    let c = set (codes "sillymacjson") (str (l.bytes_of s)) (
        set (codes "sillymac") (at (codes "MAC") crypto) (
          set (codes "kdfparams") (obj kp) (
            set (codes "kdf") (at (codes "Kdf") header) (
              set (codes "cipherparams") (obj cp) (
                set (codes "cipher") (str (codes "aes-128-cbc"))
                  (set (codes "ciphertext") (at (codes "CipherText") crypto) end))))))
    ok (set (codes "crypto") (obj c) (set (codes "id") (at (codes "Id") old) end))

  -- The versions in turn; an object of another version is no key.
  unfoldable pub from_version : Text → ℕ → Fields → Outcome Value
  from_version s version ret =
      let from1 = upgrade1 s ret >>= λ r. upgrade2 (renamed r) >>= λ r'. ok (obj r') in
      let from2 = upgrade2 (renamed ret) >>= λ r. ok (obj r) in
      if version == 1
      then from1
      else if version == 2
      then from2
      else if version == 3
      then ok (obj (renamed ret))
      else ok null

  unfoldable pub upgraded_value : Text → Value → Outcome Value
  upgraded_value s (obj ret) = version_of ret >>= λ version. from_version s version ret
  upgraded_value s null = ok null
  upgraded_value s (other n) = ok null
  upgraded_value s (num n) = ok null
  upgraded_value s (str t) = ok null

  unfoldable pub upgraded : Text → Outcome Value
  upgraded s = upgraded_value s (l.read s)
