-- ===== src/Node/Keys.antt =====
-- node/src/keys.rs: the commands that generate and show the key of the node. What they print on
-- success is the public key.
pub mod Generated
mod Tests
use sahya_net.Prelude.{Option, none, some, List, [], ◌∷◌, Bytes}
use sahya_net.Node.Paths.{root_dir, cur_dir, parent_dir, normal, FilePath, get_expanded_path}
use sahya_net.Node.Host.{Host, Outcome, done, ◌>>=◌, or_fail, or_panic, unwrap, path_or_fail}

abbrev but_last : FilePath → FilePath
but_last [] = []
but_last (c ∷ []) = []
but_last (c ∷ d ∷ p) = c ∷ but_last (d ∷ p)

-- `Path::parent`: the path without its last component, if that is not the root.
abbrev pub parent : FilePath → Option FilePath
parent [] = none
parent (root_dir ∷ []) = none
parent (cur_dir ∷ []) = some []
parent (parent_dir ∷ []) = some []
parent (normal name ∷ []) = some []
parent (c ∷ d ∷ p) = some (but_last (c ∷ d ∷ p))

pub data KeySubCmd : Type 0 where
  show generate : KeySubCmd

module _ (h : Host) where
  unfoldable pub read_ed_key_from_path : Bytes → h.files.Store → Outcome h.PrivateKey
  read_ed_key_from_path key_path s = do
    path ← path_or_fail (get_expanded_path h.home_dir key_path)
    encoded_pk ← or_fail (h.files.read_to_string path s)
    key ← or_fail (h.formats.from_hex_formatted encoded_pk)
    or_fail (h.decode_private_key key)

  -- The private key is the one that the generator of random numbers gives.
  unfoldable pub generate_keys :
      h.PrivateKey → Bytes → h.files.Store → Outcome (h.files.Store × h.Key)
  generate_keys private_key key_path s = do
    path ← unwrap (path_or_fail (get_expanded_path h.home_dir key_path))
    folder ← or_panic (parent path)
    s' ← or_panic (h.files.create_dir_all folder s)
    s'' ← or_panic (h.files.write path (h.private_key_to_string private_key) s')
    done (s'', h.public_key private_key)

  unfoldable pub show_key : Bytes → h.files.Store → Outcome (h.files.Store × h.Key)
  unfolding read_ed_key_from_path
  show_key key_path s = do pk ← unwrap (read_ed_key_from_path key_path s); done (s, h.public_key pk)

  -- `KeySubCmd::exec`
  unfoldable pub exec :
      KeySubCmd → h.PrivateKey → Bytes → h.files.Store → Outcome (h.files.Store × h.Key)
  unfolding generate_keys show_key
  exec show private_key key_path s = show_key key_path s
  exec generate private_key key_path s = generate_keys private_key key_path s
