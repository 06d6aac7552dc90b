-- ===== src/Types/Genesis.antt =====
-- types/src/genesis.rs: the genesis file, and the validators that it lists.
pub mod Addresses
mod Tests
use sahya_net.Prelude.{
  ℕ, Bool, Option, none, some, List, [], ◌∷◌, ◌++◌, Bytes, length, if◌then◌else◌, Result, ok, err,
  ◌>>=◌,
}
use Prim.Native.String.{String}

pub record Validator : Type 0 where
  pub public_key : String
  pub ip_address : String

pub record Genesis : Type 0 where
  pub validators : List Validator
  pub eth_genesis_hash : String
  pub leader_timeout_ms : ℕ
  pub notarization_timeout_ms : ℕ
  pub nullify_timeout_ms : ℕ
  pub activity_timeout_views : ℕ
  pub skip_timeout_views : ℕ
  pub max_message_size_bytes : ℕ
  pub namespace : String
  pub identity : String

pub data AddressError : Type 0 where
  bad_hex bad_key bad_address : AddressError

-- `from_hex_formatted` of commonware_utils, `PublicKey::decode`, the parser of socket addresses, and
-- the equality of public keys.
pub record Formats (Key Addr : Type 0) : Type 0 where
  pub from_hex_formatted : String → Option Bytes
  pub decode_key : Bytes → Option Key
  pub parse_addr : String → Option Addr
  pub key_eq : Key → Key → Bool

abbrev or_error : {A : Type 0} → Option A → AddressError → Result AddressError A
or_error none e = err e
or_error (some a) e = ok a

module _ {Key Addr : Type 0} (f : Formats Key Addr) where
  -- `TryInto<(PublicKey, SocketAddr)> for &Validator`
  unfoldable pub try_into : Validator → Result AddressError (Key × Addr)
  try_into v = do
    pub_key_bytes ← or_error (f.from_hex_formatted v.public_key) bad_hex
    key ← or_error (f.decode_key pub_key_bytes) bad_key
    addr ← or_error (f.parse_addr v.ip_address) bad_address
    ok (key, addr)

  -- The loop of `get_validator_addresses`, with the vector that it has filled so far.
  addresses_loop : List (Key × Addr) → List Validator → Result AddressError (List (Key × Addr))
  addresses_loop validators [] = ok validators
  addresses_loop validators (v ∷ rest) = do
    public_key_bytes ← or_error (f.from_hex_formatted v.public_key) bad_hex
    pub_key ← or_error (f.decode_key public_key_bytes) bad_key
    socket_addr ← or_error (f.parse_addr v.ip_address) bad_address
    addresses_loop (validators ++ (pub_key, socket_addr) ∷ []) rest

  unfoldable pub get_validator_addresses : Genesis → Result AddressError (List (Key × Addr))
  unfolding addresses_loop
  get_validator_addresses g = addresses_loop [] g.validators

  -- The address of one validator, if it is the one that is looked for and its address parses.
  address_if : Key → Validator → Option Addr
  address_if target v = elim (f.from_hex_formatted v.public_key) [
    | none ↦ none
    | some bytes ↦ elim (f.decode_key bytes) [
      | none ↦ none
      | some key ↦ if f.key_eq key target then f.parse_addr v.ip_address else none
    ]
  ]

  abbrev or_else : Option Addr → Option Addr → Option Addr
  or_else none rest = rest
  or_else (some a) rest = some a

  -- The loop of `ip_of`: a validator that does not parse, or whose address does not, is passed over.
  ip_of_loop : Key → List Validator → Option Addr
  unfolding address_if
  ip_of_loop target [] = none
  ip_of_loop target (v ∷ rest) = or_else (address_if target v) (ip_of_loop target rest)

  unfoldable pub ip_of : Genesis → Key → Option Addr
  unfolding ip_of_loop
  ip_of g target = ip_of_loop target g.validators

pub validator_count : Genesis → ℕ
validator_count g = length g.validators
