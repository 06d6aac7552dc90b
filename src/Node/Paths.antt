-- ===== src/Node/Paths.antt =====
-- node/src/utils.rs: paths that begin with `~`. A path is text in bytes; what counts are its
-- components, as for `std::path`: a repeated or a last `/` and a `.` behind the first component are
-- passed over.
use sahya_net.Prelude.{
  ℕ, ◌≡◌, refl, Option, none, some, List, [], ◌∷◌, ◌++◌, Bytes, bytes_eq, ◌==◌, if◌then◌else◌,
  Result, ok, err,
}

abbrev pub slash : ℕ
slash = 47

abbrev dot : ℕ
dot = 46

abbrev tilde : ℕ
tilde = 126

-- `std::path::Component`
pub data Component : Type 0 where
  root_dir cur_dir parent_dir : Component
  normal : Bytes → Component

abbrev pub FilePath : Type 0
FilePath = List Component

-- `Unable to find a home directory to use with path`
pub data PathError : Type 0 where
  no_home : PathError

abbrev before_first : ℕ → List Bytes → List Bytes
before_first c [] = (c ∷ []) ∷ []
before_first c (part ∷ parts) = (c ∷ part) ∷ parts

-- The parts of a text between its slashes.
unfoldable parts : Bytes → List Bytes
parts [] = [] ∷ []
parts (c ∷ text) = let rest = parts text in if c == slash then [] ∷ rest else before_first c rest

abbrev component : Bytes → Option Component
component part =
    if bytes_eq part []
    then none
    else if bytes_eq part (dot ∷ [])
    then none
    else if bytes_eq part (dot ∷ dot ∷ [])
    then some parent_dir
    else some (normal part)

abbrev and_then : Option Component → FilePath → FilePath
and_then none p = p
and_then (some c) p = c ∷ p

unfoldable components : List Bytes → FilePath
components [] = []
components (part ∷ rest) = and_then (component part) (components rest)

-- An empty first part is the root if a slash follows, and a first `.` stays.
abbrev first_component : Bytes → List Bytes → Option Component
first_component [] [] = none
first_component [] (part ∷ rest) = some root_dir
first_component (c ∷ part) rest =
    if bytes_eq (c ∷ part) (dot ∷ []) then some cur_dir else component (c ∷ part)

abbrev from_parts : List Bytes → FilePath
from_parts [] = []
from_parts (part ∷ rest) = and_then (first_component part rest) (components rest)

-- `PathBuf::from_str`, which takes any text.
unfoldable pub path_of : Bytes → FilePath
unfolding parts components
path_of text = from_parts (parts text)

-- `home_dir.join(relative)`; nothing behind the first component is the root.
abbrev in_home : Option FilePath → FilePath → Result PathError FilePath
in_home none relative = err no_home
in_home (some home) relative = ok (home ++ relative)

abbrev expanded : Option FilePath → FilePath → Result PathError FilePath
expanded home (normal name ∷ rest) =
    if bytes_eq name (tilde ∷ []) then in_home home rest else ok (normal name ∷ rest)
expanded home (root_dir ∷ rest) = ok (root_dir ∷ rest)
expanded home (cur_dir ∷ rest) = ok (cur_dir ∷ rest)
expanded home (parent_dir ∷ rest) = ok (parent_dir ∷ rest)
expanded home [] = ok []

-- The home directory is that of the crate dirs.
unfoldable pub get_expanded_path : Option FilePath → Bytes → Result PathError FilePath
unfolding path_of
get_expanded_path home text = expanded home (path_of text)

-- The components of a relative text behind a slash.
unfoldable pub names : Bytes → FilePath
unfolding parts components
names text = components (parts text)

-- A text that begins with `~/` names the components behind it in the home directory, and is an error
-- exactly without one.
pub get_expanded_path-home :
    (home : Option FilePath) (text : Bytes)
    → get_expanded_path home (tilde ∷ slash ∷ text) ≡ in_home home (names text)
unfolding get_expanded_path path_of parts components names bytes_eq
get_expanded_path-home home text = refl
