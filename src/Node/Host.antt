-- ===== src/Node/Host.antt =====
-- What a node finds on its machine and takes from other crates: the files, the home directory, the
-- codecs of keys, shares and polynomials, and the orders of keys and addresses.
use sahya_net.Prelude.{ℕ, ◌≡◌, refl, Option, none, some, Bytes, Result, ok, err}
use sahya_net.Prelude.Sort.{Order}
use sahya_net.Types.Genesis.{Genesis, Formats}
use sahya_net.Node.Paths.{FilePath, PathError}
use Prim.Native.String.{String}

-- The files, as `std::fs` gives them. `none` is an input or output error.
pub record Files : Type 1 where
  pub Store : Type 0
  pub read_to_string : FilePath → Store → Option String
  pub create_dir_all : FilePath → Store → Option Store
  pub write : FilePath → String → Store → Option Store

-- What was written is read.
pub record FilesLaws (f : Files) : Type 0 where
  pub read-write :
      (p : FilePath) (text : String) (s s' : f.Store)
      → f.write p text s ≡ some s'
      → f.read_to_string p s' ≡ some text

pub record Host : Type 1 where
  pub Key : Type 0
  pub Addr : Type 0
  pub PrivateKey : Type 0
  pub Share : Type 0
  pub Poly : Type 0
  pub files : Files
  -- `dirs::home_dir()`
  pub home_dir : Option FilePath
  -- `from_hex_formatted`, the codec of public keys, the parser of addresses
  pub formats : Formats Key Addr
  pub key_order : Order Key
  pub addr_order : Order Addr
  pub public_key : PrivateKey → Key
  pub private_key_to_string : PrivateKey → String
  pub decode_private_key : Bytes → Option PrivateKey
  pub decode_share : Bytes → Option Share
  -- `poly::Public::decode_cfg` with the number of its coefficients
  pub decode_polynomial : Bytes → ℕ → Option Poly
  -- `quorum` of commonware_utils; `none` is a panic
  pub quorum : ℕ → Option ℕ
  -- `toml::from_str`
  pub parse_genesis : String → Option Genesis

-- A private key is printed as the hex text that is decoded to it.
pub record HostLaws (h : Host) : Type 0 where
  pub files : FilesLaws h.files
  pub key_text :
      (k : h.PrivateKey)
      → (bytes : Bytes) × (h.formats.from_hex_formatted (h.private_key_to_string k) ≡ some bytes)
        × (h.decode_private_key bytes ≡ some k)

-- How a step of the start ends: with a value, with an error that `?` passes on, or with a panic.
pub data Outcome (A : Type 0) : Type 0 where
  done : A → Outcome A
  failed : Outcome A
  panicked : Outcome A

infixl 5 ◌>>=◌
abbrev pub ◌>>=◌ : {A B : Type 0} → Outcome A → (A → Outcome B) → Outcome B
done a >>= f = f a
failed >>= f = failed
panicked >>= f = panicked

-- `?`, with or without a context
abbrev pub or_fail : {A : Type 0} → Option A → Outcome A
or_fail none = failed
or_fail (some a) = done a

-- `.expect(..)` on an option or a result
abbrev pub or_panic : {A : Type 0} → Option A → Outcome A
or_panic none = panicked
or_panic (some a) = done a

-- `.expect(..)` and `.unwrap()` on what a function of this crate returns
abbrev pub unwrap : {A : Type 0} → Outcome A → Outcome A
unwrap (done a) = done a
unwrap failed = panicked
unwrap panicked = panicked

-- `get_expanded_path(..)?`
abbrev pub path_or_fail : Result PathError FilePath → Outcome FilePath
path_or_fail (ok p) = done p
path_or_fail (err e) = failed

pub >>=-done :
    {A B : Type 0} (m : Outcome A) (f : A → Outcome B) {b : B}
    → (m >>= f) ≡ done b
    → (a : A) × (m ≡ done a) × (f a ≡ done b)
>>=-done (done a) f h = (a, refl, h)
>>=-done failed f h = cc
>>=-done panicked f h = cc

pub or_fail-done : {A : Type 0} (o : Option A) {a : A} → or_fail o ≡ done a → o ≡ some a
or_fail-done none h = cc
or_fail-done (some b) h = cc

pub or_panic-done : {A : Type 0} (o : Option A) {a : A} → or_panic o ≡ done a → o ≡ some a
or_panic-done none h = cc
or_panic-done (some b) h = cc

pub unwrap-done : {A : Type 0} (m : Outcome A) {a : A} → unwrap m ≡ done a → m ≡ done a
unwrap-done (done b) h = h
unwrap-done failed h = cc
unwrap-done panicked h = cc

pub path_or_fail-done :
    (r : Result PathError FilePath) {p : FilePath} → path_or_fail r ≡ done p → r ≡ ok p
path_or_fail-done (ok q) h = cc
path_or_fail-done (err e) h = cc

pub done-injective : {A : Type 0} {a b : A} → done a ≡ done b → a ≡ b
done-injective h = cc
