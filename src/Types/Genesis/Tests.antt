-- ===== src/Types/Genesis/Tests.antt =====
-- A genesis file with two validators.
use Prim.Native.String.{String}
use text.Mathlib.Text.{◌==◌}
use sahya_net.Prelude.{
  ◌≡◌, refl, Option, none, some, List, [], ◌∷◌, Bytes, bytes_eq, if◌then◌else◌, ok, err,
}
use sahya_net.Types.Genesis.{Validator, Genesis, Formats, bad_hex, get_validator_addresses, ip_of}

abbrev hex_of : String → Option Bytes
hex_of s = if s == "01" then some (1 ∷ []) else if s == "02" then some (2 ∷ []) else none

abbrev formats : Formats Bytes String
formats = record {
  from_hex_formatted = hex_of;
  decode_key = λ bytes. some bytes;
  parse_addr = λ s. some s;
  key_eq = bytes_eq;
}

abbrev file_of : List Validator → Genesis
file_of vs = record {
  validators = vs;
  eth_genesis_hash = "00";
  leader_timeout_ms = 1000;
  notarization_timeout_ms = 2000;
  nullify_timeout_ms = 10000;
  activity_timeout_views = 256;
  skip_timeout_views = 32;
  max_message_size_bytes = 104857600;
  namespace = "_SEISMIC_BFT";
  identity = "";
}

abbrev two_validators : Genesis
two_validators = file_of (
    record { public_key = "01"; ip_address = "10.0.0.1:26600" }
    ∷ record { public_key = "02"; ip_address = "10.0.0.2:26600" }
    ∷ [])

abbrev two_entries : List (Bytes × String)
two_entries = (1 ∷ [], "10.0.0.1:26600") ∷ (2 ∷ [], "10.0.0.2:26600") ∷ []

two_parse : get_validator_addresses formats two_validators ≡ ok two_entries
unfolding get_validator_addresses
two_parse = refl

second_address : ip_of formats two_validators (2 ∷ []) ≡ some "10.0.0.2:26600"
unfolding ip_of bytes_eq
second_address = refl

bad_key_is_an_error :
    get_validator_addresses formats (file_of (record { public_key = "zz"; ip_address = "" } ∷ []))
    ≡ err bad_hex
unfolding get_validator_addresses
bad_key_is_an_error = refl
