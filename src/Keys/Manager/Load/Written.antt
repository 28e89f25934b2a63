-- ===== src/Keys/Manager/Load/Written.antt =====
-- The keys file that `write` with a password leaves is loaded with that password.
use cpp_conflux_sdk.Keys.Table.{Table}
