-- ===== src/Node/Sample.antt =====
-- A machine with small types that obeys the laws of `Host`, for tests.
use Prim.Native.String.{String}
use text.Mathlib.Text.{◌==◌}
use sahya_net.Prelude.{
  ℕ, ◌≡◌, refl, Bool, true, false, ◌&&◌, Option, none, some, List, [], ◌∷◌, Bytes, bytes_eq,
  bytes_eq_iff, replicate, leb, if◌then◌else◌, arith,
}
use sahya_net.Prelude as P
use sahya_net.Prelude.Sort.{Order}
use sahya_net.Types.Genesis.{Validator, Genesis, Formats}
use sahya_net.Node.Paths.{Component, root_dir, cur_dir, parent_dir, normal, FilePath}
use sahya_net.Node.Host.{Files, FilesLaws, Host, HostLaws}

abbrev pub nat_order : Order ℕ
nat_order = record {
  leb = leb;
  leb_total = λ a b h. ground arith;
  leb_trans = λ a b c h k. ground arith;
  leb_antisym = λ a b h k. ground arith;
}

component_eq : Component → Component → Bool
component_eq root_dir root_dir = true
component_eq cur_dir cur_dir = true
component_eq parent_dir parent_dir = true
component_eq (normal a) (normal b) = bytes_eq a b
component_eq c d = false

unfoldable path_eq : FilePath → FilePath → Bool
unfolding component_eq
path_eq [] [] = true
path_eq (c ∷ p) (d ∷ q) = component_eq c d && path_eq p q
path_eq p q = false

component_eq_refl : (c : Component) → component_eq c c ≡ true
unfolding component_eq
component_eq_refl root_dir = refl
component_eq_refl cur_dir = refl
component_eq_refl parent_dir = refl
component_eq_refl (normal a) = (bytes_eq_iff a a).1 refl

path_eq_refl : (p : FilePath) → path_eq p p ≡ true
unfolding path_eq
path_eq_refl [] = refl
path_eq_refl (c ∷ p) = rw (component_eq_refl c, path_eq_refl p) refl

unfoldable pub read_file : FilePath → List (FilePath × String) → Option String
unfolding path_eq
read_file p [] = none
read_file p ((q, text) ∷ rest) =
    let below = read_file p rest in if path_eq q p then some text else below

abbrev pub files : Files
files = record {
  Store = List (FilePath × String);
  read_to_string = read_file;
  create_dir_all = λ p s. some s;
  write = λ p text s. some ((p, text) ∷ s);
}

files_laws : FilesLaws files
unfolding read_file
files_laws = record {
  read-write = λ p text s s' h.
      (let same : (p, text) ∷ s ≡ s' = cc h in rw (P.sym same, path_eq_refl p) refl);
}

abbrev hash_text : String
hash_text = "00"

-- The hex texts that the tests use.
abbrev hex_of : String → Option Bytes
hex_of s =
    if s == "01"
    then some (1 ∷ [])
    else if s == "02"
    then some (2 ∷ [])
    else if s == hash_text
    then some (replicate 32 0)
    else none

-- A codec of one byte.
abbrev one_byte : Bytes → Option ℕ
one_byte (b ∷ []) = some b
one_byte bytes = none

abbrev decode_signer : Bytes → Option Bool
decode_signer bytes =
    if bytes_eq bytes (1 ∷ [])
    then some true
    else if bytes_eq bytes (2 ∷ [])
    then some false
    else none

abbrev signer_text : Bool → String
signer_text true = "01"
signer_text false = "02"

abbrev formats : Formats ℕ ℕ
formats = record {
  from_hex_formatted = hex_of;
  decode_key = one_byte;
  parse_addr =
      λ s. if s == "10.0.0.1:26600" then some 1 else if s == "10.0.0.2:26600" then some 2 else none;
  key_eq = P.◌==◌;
}

abbrev pub two_validators : List Validator
two_validators =
    record { public_key = "02"; ip_address = "10.0.0.2:26600" }
    ∷ record { public_key = "01"; ip_address = "10.0.0.1:26600" }
    ∷ []

abbrev pub genesis : Genesis
genesis = record {
  validators = two_validators;
  eth_genesis_hash = "00";
  leader_timeout_ms = 1000;
  notarization_timeout_ms = 2000;
  nullify_timeout_ms = 10000;
  activity_timeout_views = 256;
  skip_timeout_views = 32;
  max_message_size_bytes = 104857600;
  namespace = "_SEISMIC_BFT";
  identity = "01";
}

abbrev pub host : Host
host = record {
  Key = ℕ;
  Addr = ℕ;
  PrivateKey = Bool;
  Share = ℕ;
  Poly = ℕ;
  files = files;
  home_dir = some (root_dir ∷ normal (104 ∷ []) ∷ []);
  formats = formats;
  key_order = nat_order;
  addr_order = nat_order;
  public_key = λ k. if k then 1 else 2;
  private_key_to_string = signer_text;
  decode_private_key = decode_signer;
  decode_share = one_byte;
  decode_polynomial = λ bytes threshold. one_byte bytes;
  quorum = λ n. some n;
  parse_genesis = λ text. some genesis;
}

key_codec :
    (k : Bool)
    → (bytes : Bytes) × (hex_of (signer_text k) ≡ some bytes) × (decode_signer bytes ≡ some k)
unfolding bytes_eq
key_codec true = (1 ∷ [], refl, refl)
key_codec false = (2 ∷ [], refl, refl)

pub host_laws : HostLaws host
host_laws = record { files = files_laws; key_text = key_codec }
