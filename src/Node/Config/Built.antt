-- ===== src/Node/Config/Built.antt =====
-- What a configuration that is returned was built from, and which faults are errors and which panics.
use sahya_net.Prelude.{ℕ, ◌%◌, ◌^◌, ◌≡◌, sym, ap, ◌∙◌, some, List, Bytes, length, arith}
use mathlib.Core.Path.{subst}
use sahya_net.Types.Digest.{Digest, IsDigest}
use sahya_net.Types.Genesis.{Genesis}
use sahya_net.Node.Host.{Host, done, or_panic, >>=-done, or_panic-done, done-injective}
use sahya_net.Node.Keys.{read_ed_key_from_path}
use sahya_net.Node.Config.{
  Url, EngineConfig, get_engine_config, with_genesis, config_of, read_share, read_jwt, to_hash,
}
use Prim.Native.String.{String}

to_hash-IsDigest : (bytes : Bytes) (d : Digest) → to_hash bytes ≡ some d → (bytes ≡ d) × IsDigest d
to_hash-IsDigest bytes d e = ground arith

module _ (h : Host) where
  -- The signer is the key of the file, the polynomial has as many coefficients as a quorum of the
  -- participants has members, the share and the genesis hash are those of the files.
  pub record IsBuilt (key_path : Bytes) (participants : List h.Key) (genesis : Genesis)
      (s : h.files.Store) (c : EngineConfig h) : Type 0 where
    pub same_participants : c.participants ≡ participants
    pub signer_read : read_ed_key_from_path h key_path s ≡ done c.signer
    pub threshold : ℕ
    pub is_quorum : h.quorum (length participants % 2 ^ 32) ≡ some threshold
    pub identity : Bytes
    pub identity_hex : h.formats.from_hex_formatted genesis.identity ≡ some identity
    pub polynomial_fits : h.decode_polynomial identity threshold ≡ some c.polynomial
    pub hash_size : IsDigest c.genesis_hash
    pub hash_hex : h.formats.from_hex_formatted genesis.eth_genesis_hash ≡ some c.genesis_hash

  with_genesis-IsBuilt :
      (url : Url) (engine_jwt : String) (share : h.Share) (signer : h.PrivateKey) (key_path : Bytes)
      (participants : List h.Key) (db_prefix : String) (genesis : Genesis) (s : h.files.Store)
      (c : EngineConfig h)
      → read_ed_key_from_path h key_path s ≡ done signer
      → with_genesis h url engine_jwt share signer participants db_prefix genesis ≡ done c
      → IsBuilt key_path participants genesis s c
  unfolding with_genesis config_of
  with_genesis-IsBuilt url engine_jwt share signer key_path participants db_prefix genesis s c read
        e7 =
      let (poly_bytes, is_hex, e8) =
        >>=-done (or_panic (h.formats.from_hex_formatted genesis.identity)) _ e7 in
      let (threshold, size, e9) =
        >>=-done (or_panic (h.quorum (length participants % 2 ^ 32))) _ e8 in
      let (polynomial, fits, e10) =
        >>=-done (or_panic (h.decode_polynomial poly_bytes threshold)) _ e9 in
      let (hash_bytes, hash_is_hex, e11) =
        >>=-done (or_panic (h.formats.from_hex_formatted genesis.eth_genesis_hash)) _ e10 in
      let (hash, converted, e12) = >>=-done (or_panic (to_hash hash_bytes)) _ e11 in
      let same = done-injective e12 in
      let (copied, is_hash) =
        to_hash-IsDigest hash_bytes hash (or_panic-done (to_hash hash_bytes) converted) in
      record {
        same_participants = ap (λ b. b.participants) (sym same);
        signer_read = read ∙ ap (λ b. done b.signer) same;
        threshold = threshold;
        is_quorum = or_panic-done _ size;
        identity = poly_bytes;
        identity_hex = or_panic-done _ is_hex;
        polynomial_fits = or_panic-done _ fits ∙ ap (λ b. some b.polynomial) same;
        hash_size = subst (λ b. IsDigest b.genesis_hash) same is_hash;
        hash_hex =
            or_panic-done _ hash_is_hex ∙ ap some copied ∙ ap (λ b. some b.genesis_hash) same;
      }

  -- A configuration that is returned has the given participants, the private key of the file as its
  -- signer, a polynomial that is read with a quorum of the participants as its size, and a genesis
  -- hash of 32 bytes, both as the genesis file has them.
  pub get_engine_config-IsBuilt :
      (url : Url) (jwt_path key_path share_path : Bytes) (participants : List h.Key)
      (db_prefix : String) (genesis : Genesis) (s : h.files.Store) (c : EngineConfig h)
      → get_engine_config h url jwt_path key_path share_path participants db_prefix genesis s
        ≡ done c
      → IsBuilt key_path participants genesis s c
  unfolding get_engine_config
  get_engine_config-IsBuilt url jwt_path key_path share_path participants db_prefix genesis s c e0 =
      let (engine_jwt, _, e1) = >>=-done (read_jwt h jwt_path s) _ e0 in
      let (share, _, e2) = >>=-done (read_share h share_path s) _ e1 in
      let (signer, read, e3) = >>=-done (read_ed_key_from_path h key_path s) _ e2 in
      with_genesis-IsBuilt url engine_jwt share signer key_path participants db_prefix genesis s c
        read e3
