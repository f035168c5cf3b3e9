-- ===== src/Manager/Keys.antt =====
-- The key of an agent instance in manager/: its name and its id.
use safactory.Base.{string_eq, pair_eq, Eq, String}

abbrev pub Key : Type 0
Key = String × String

instance unfoldable pub key_eq : Eq Key
key_eq = pair_eq
