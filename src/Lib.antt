-- ===== src/Lib.antt =====
-- A model of the addresses of the Conflux C++ SDK, of its transactions and contract calls, of its store
-- of keys, and of the coding below them, with what makes them correct.
--
-- An address is read from text and written as text. `cfx_cpp::Address` (types/cfxaddress/address.cpp)
-- takes hexadecimal text, `0x` and 40 digits, or base32 text: a network prefix, a type that may be
-- left out, 34 symbols for the payload and 8 for the checksum, with `:` between the parts. It calls
-- `NetworkType` for the prefix, `AddressType` for the kind, `VersionByte` and `Body` for the payload,
-- `CalcChecksum` for the checksum, `convert` and `polymod` of lib.cpp for the bits, and the helpers
-- of common/encoding/hex and common/util/string_util.
--
-- A transaction (libcfxcore/TransactionBase) is written as bytes by an `RLPStream`, hashed and signed.
-- `libdevcore/RLP` writes and reads nested lists of byte strings: the stream keeps the lists that are
-- not complete, the reader views bytes and finds items in them. Both stand on the numbers and bytes of
-- `libdevcore/CommonData`; the addresses do not use it.
--
-- The data of a transaction that calls a contract is coded by libcfxcore/abi: four bytes of the hash of
-- the function's type, then its parameters. A `ParamSet` writes a head with the short parameters and
-- the indices of the long ones, and the long ones behind it; each parameter codes itself.
--
-- The secret of an account is kept in a file of JSON, encrypted with a password. `SecretStore`
-- (libdevcrypto) reads these files into a map by identifiers, keeps the secrets that have been decrypted,
-- and writes the files again after each change. `KeyManager` (libdevcore) keeps for the addresses which
-- identifier, name and password hint they have, asks for passwords and keeps them under their hashes,
-- and calls the store; its own file is an RLP list, encrypted. Both stand on the arrays of
-- libdevcore/FixedHash, which also has the bloom filter of libcfxcore/bloom_filter.h.
--
-- Which file models what; a path of the source that names no other folder is in libcfxcore:
--   Hex          common/encoding/hex.cpp: `fromHexChar`, `Decode`, `DecodeString`, `EncodeToString`
--   StringUtil   common/util/string_util.cpp and .h: `split_string`, `tolower_string`,
--                `toupper_string`, `starts_with`, `ends_with`
--   Cfxaddress   types/cfxaddress:
--     Convert      lib.cpp: `convert`, `verifyConvert`; the loop variables are a record
--     Polymod      lib.cpp: `polymod`, `uint64ToBytes`
--     NetworkType  network_type.cpp; NetworkType/Decimal has `sprintf("%d")` and `std::stoi`
--     AddressType  address_type.cpp
--     VersionByte  version_byte.h and version_byte.cpp
--     Body         body.cpp
--     Checksum     checksum.cpp
--     Regex        the part of `std::regex` that address.cpp uses, as a backtracking matcher
--     Address      address.cpp: `New`, `NewFromHex`, `NewFromBytes`, `setCache`, `NewFromBase32`, the
--                  constructor; Address/Methods has the methods that only read the object
--   CommonData   libdevcore/CommonData.h and CommonData.cpp:
--     Endian       `toBigEndian`, `fromBigEndian`, `toCompactBigEndian`, `bytesRequired`; the type of
--                  the number is its width in bits
--     HexText      `toHex`, `toHexPrefixed`, `fromHex`, `isHex`
--     Sequences    `asNibbles`, `commonPrefix`, `trimFront`, `pushFront`, `escaped`
--   CommonJs     libdevcore/CommonJS.h and CommonJS.cpp: `jsToBytes`, `jsToAddress`, `toJS`, `jsToInt`,
--                `fromRaw`, the padding of bytes; boost's reading of a decimal number is a parameter
--   Rlp          libdevcore/RLP.h and RLP.cpp:
--     Item         the items and their canonical coding, independent of the code
--     Stream       `RLPStream`: `append`, `appendList`, `appendRaw`, `noteAppended`, `out`
--     Reader       `RLP`: the constructor with its strictness, `length`, `actualSize`, `payload`;
--                  Reader/Items has `items` and the iterator, Reader/Index `operator[]` with its
--                  cache, Reader/Values `toBytes`, `toString`, `isInt`, `toInt`, `toHash`
--   Transaction  libcfxcore/TransactionBase.h and .cpp: the members, the setters, `streamRLP`;
--                Transaction/Signing has `sha3`, `sign`, `SignTransaction`, `sender`
--   Abi          libcfxcore/abi: ValueEncoder, uint256.h and the reading of a number in ParamNumber.h
--     Param        ParamNumber, ParamAddress.h, Bytes: the parameters that hold no others, one data
--                  type whose clauses are the methods of the classes
--     ParamSet     Parameters: `addParam`, `getParam`, `getType`, sizes, `encode`, `decode`
--     Function     Function: `getSignature`, `encode`, `decodeInput`, `decodeOutput`
--   FixedHash    libdevcore/FixedHash.h and FixedHash.cpp: constructors, order, operators, `bloomPart`,
--                `shiftBloom`, `containsBloom`, `toUUID`, `fromUUID`; bloom_filter.h
--   Keys         what the keys take from other libraries, a record; Keys/Json has the values of
--                json_spirit, Keys/Table a `std::unordered_map` from hashes
--     Envelope     libdevcrypto/SecretStore.cpp: `encrypt`, `decrypt`, `deriveNewKey`; the ciphers and
--                  key derivations of libdevcrypto/Common.cpp
--     Upgrade      libdevcrypto/SecretStore.cpp: `upgraded`
--     Store        libdevcrypto/SecretStore.cpp: `secret`, `importSecret`, `kill`, `save`, `recode`,
--                  `noteAddress`; Store/KeyFiles has `readKeyContent` and `load`
--     Manager      libdevcore/KeyManager.cpp: `getPassword`, `secret`, `write`, `create`, `import`,
--                  `importExisting`, `recode`, `kill`; Manager/State has the members
--                  and what only reads them, Manager/Load has `load`
--   Common       shared names, lists, bit operations on ℕ, results
--   Examples     the theorems at concrete inputs, and runs of the code
-- The modules below a component hold its proofs and are named for what they prove.
--
-- A byte, a character and an unsigned number are natural numbers; where the source computes in w
-- bits, the remainder by `2 ^ w` is written out. A string and a vector of bytes are lists. A method
-- that changes the object takes it and returns the changed one; what throws returns an `Outcome`.
-- `NewFromBase32` returns the object also on its early returns, which leave it partly assigned.
-- The member `networkID` has no initial value in the source, so its first value is a parameter.
--
-- Fuel: `drain` (the inner loop of `convert`) takes `accBits` rounds at most, since each takes one bit
-- or more; `split_loop` as many as the text has characters, since each takes one; the printing of a
-- decimal number n takes n + 1, since a division by ten shrinks it; `count_bytes`
-- takes the number itself, since each round divides it by 256; `items_loop` and `visit` take the
-- number of bytes, since an item has one byte or more; the loop of `operator[]` counts its index up,
-- so its rounds are the indices ahead; the loop of `padded` takes as many rounds as bytes are missing.
-- `static_log2` takes the number itself, since each round halves it; the eight bits of a byte bound the
-- rounds of `first_bit_of`; `ask` has the ten attempts that the source counts.
-- The theorems are about the functions with this fuel.
--
-- Hashing and the curve are parameters of a transaction: a record of three functions, of which
-- nothing is assumed. The signature of a call takes the hash as a function to 32 bytes. The number
-- conversions of boost that the ABI coding calls are the record `Boost`, and `IsExact` is what boost
-- documents of them.
--
-- JSON, key derivation, AES in counter mode, the curve, Keccak-256 and the paths of boost are the record
-- `Libraries`, and `IsDocumented` is what is documented of them. What the code draws at random is an
-- argument. Asking for a password is a function on a state of the caller's. The files that are written
-- and removed are a log, and the files of a directory are a list. A call that throws returns no state:
-- what it had changed until then is not modelled; `load` answers false where the model of it throws. An unordered map is a table in the order of its keys.
--
-- Not modelled here: reading out of bounds where the source has no defined behaviour (a comment says
-- where), `random_string` (it draws from `rand`), `contains` (boost), the stream operators and what
-- prints through a stream, the container helpers of CommonData, the conversions of RLP nodes to pairs,
-- sets and arrays, the arrays and signed numbers of the ABI coding and its factory of parameters from
-- type names, the remote calls, cryptography, random hashes and their printing, permissions of files,
-- the keys of a presale and the search for new keys by threads. The buffers of 128 characters that
-- the texts are printed into are taken to be large enough, as they are for every prefix that
-- `NetworkType` makes of an id.
pub mod Common
pub mod Hex
pub mod StringUtil
pub mod CommonData
pub mod CommonJs
pub mod FixedHash
pub mod Rlp
pub mod Transaction
pub mod Keys
pub mod Abi
pub mod Cfxaddress
pub mod Examples
