-- ===== src/Examples.antt =====
-- The theorems at concrete inputs, and runs of the code.
mod Encodings
mod Parts
mod Data
mod Orders
mod Addresses
mod Rlp
mod Transactions
mod Calls
mod Texts
mod Hashes
mod Toys
mod Envelopes
mod Stores
mod Managers
mod Accounts
