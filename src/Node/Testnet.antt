-- ===== src/Node/Testnet.antt =====
-- node/src/bin/testnet.rs: the flags of the nodes of a local network. Texts are bytes, but
-- for the prefix of the storage.
pub mod Separate
pub mod Prefixes
pub mod Network
mod Tests
use sahya_net.Prelude.{
  ℕ, zero, suc, ◌+◌, ◌*◌, ◌/◌, ◌%◌, ◌^◌, List, [], ◌∷◌, ◌++◌, Bytes, ltb, if◌then◌else◌,
}
use sahya_net.Node.Startup.{Flags}
use Prim.Native.Char.{Char}
use Prim.Native.String.{String}
use Prim.Native.String as Text

-- A number as `{}` prints it, with the digits that are left to print.
unfoldable pub decimal_from : ℕ → ℕ → Bytes
decimal_from zero n = []
decimal_from (suc digits) n =
    let before = decimal_from digits (n / 10) in
    if ltb n 10 then (48 + n) ∷ [] else before ++ (48 + n % 10) ∷ []

-- No number has more digits than one more than itself.
unfoldable pub decimal : ℕ → Bytes
unfolding decimal_from
decimal n = decimal_from (suc n) n

-- `testnet/node`
abbrev pub node_prefix : Bytes
node_prefix = 116 ∷ 101 ∷ 115 ∷ 116 ∷ 110 ∷ 101 ∷ 116 ∷ 47 ∷ 110 ∷ 111 ∷ 100 ∷ 101 ∷ []

-- `/key.pem`, `/share.pem`, `/db`
abbrev key_file : Bytes
key_file = 47 ∷ 107 ∷ 101 ∷ 121 ∷ 46 ∷ 112 ∷ 101 ∷ 109 ∷ []

abbrev share_file : Bytes
share_file = 47 ∷ 115 ∷ 104 ∷ 97 ∷ 114 ∷ 101 ∷ 46 ∷ 112 ∷ 101 ∷ 109 ∷ []

abbrev store_folder : Bytes
store_folder = 47 ∷ 100 ∷ 98 ∷ []

-- `testnet/jwt.hex`, `./example_genesis.toml`
abbrev pub jwt_file : Bytes
jwt_file =
    116 ∷ 101 ∷ 115 ∷ 116 ∷ 110 ∷ 101 ∷ 116 ∷ 47 ∷ 106 ∷ 119 ∷ 116 ∷ 46 ∷ 104 ∷ 101 ∷ 120 ∷ []

abbrev genesis_file : Bytes
genesis_file =
    46 ∷ 47 ∷ 101 ∷ 120 ∷ 97 ∷ 109 ∷ 112 ∷ 108 ∷ 101 ∷ 95 ∷ 103 ∷ 101 ∷ 110 ∷ 101 ∷ 115 ∷ 105 ∷ 115
    ∷ 46 ∷ 116 ∷ 111 ∷ 109 ∷ 108 ∷ []

abbrev digits : List Char
digits = "0" ∷ "1" ∷ "2" ∷ "3" ∷ "4" ∷ "5" ∷ "6" ∷ "7" ∷ "8" ∷ "9" ∷ []

abbrev char_at : List Char → ℕ → Char
char_at [] n = "9"
char_at (c ∷ rest) zero = c
char_at (c ∷ rest) (suc n) = char_at rest n

-- The digit as a character of a native text.
unfoldable digit : ℕ → Char
digit n = char_at digits n

-- The same number as a native text.
unfoldable pub text_from : ℕ → ℕ → String
unfolding digit
text_from zero n = ""
text_from (suc left) n =
    let before = text_from left (n / 10) in
    if ltb n 10 then String.◌∷◌ (digit n) "" else Text.◌++◌ before (String.◌∷◌ (digit (n % 10)) "")

-- `format!("{node}-quarts")`
unfoldable pub db_prefix_of : ℕ → String
unfolding text_from
db_prefix_of node = Text.◌++◌ (text_from (suc node) node) "-quarts"

unfoldable pub get_node_flags : ℕ → Flags
unfolding decimal db_prefix_of
get_node_flags node = record {
  key_path = node_prefix ++ decimal node ++ key_file;
  share_path = node_prefix ++ decimal node ++ share_file;
  store_path = node_prefix ++ decimal node ++ store_folder;
  engine_port = 8551;
  engine_jwt_path = jwt_file;
  port = (26600 + node * 10) % 2 ^ 16;
  prom_port = (28600 + node * 10) % 2 ^ 16;
  worker_threads = 2;
  log_level = "debug";
  db_prefix = db_prefix_of node;
  genesis_path = genesis_file;
}
