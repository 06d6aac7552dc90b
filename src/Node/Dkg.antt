-- ===== src/Node/Dkg.antt =====
-- node/src/bin/dkg_testnet.rs: a dealer writes the keys and the shares of a local network, and puts
-- the public keys into the genesis file. The generated keys and the dealt polynomial and shares are
-- arguments; what is written is a list, one item for each node's folder.
pub mod Dealt
mod Tests
use sahya_net.Prelude.{ℕ, Bool, not, List, [], ◌∷◌, map, length, ◌==◌, if◌then◌else◌}
use sahya_net.Prelude.Sort.{Order, pair_order, sort}
use sahya_net.Types.Genesis.{Validator, Genesis}
use sahya_net.Node.Host.{Host, Outcome, done, failed, panicked, ◌>>=◌}
use Prim.Native.String.{String}

-- What stands in `key.pem` and `share.pem` of one node.
pub record NodeFiles : Type 0 where
  pub key : String
  pub share : String

-- `hex` of what the dealer writes, and the order of private keys.
pub record Dealer (h : Host) : Type 0 where
  pub key_hex : h.Key → String
  pub private_key_hex : h.PrivateKey → String
  pub share_hex : h.Share → String
  pub polynomial_hex : h.Poly → String
  pub private_key_order : Order h.PrivateKey

module _ (h : Host) (d : Dealer h) where
  -- `private_keys`, sorted
  abbrev pub sorted_keys : List h.PrivateKey → List (h.Key × h.PrivateKey)
  sorted_keys keys =
      sort (pair_order h.key_order d.private_key_order) (map (λ k. (h.public_key k, k)) keys)

  -- The loop over the nodes; an index out of range panics.
  unfoldable pub deal :
      List (h.Key × h.PrivateKey)
      → List h.Share
      → List Validator
      → Outcome (List Validator × List NodeFiles)
  deal [] shares validators = done (validators, [])
  deal (k ∷ keys) [] validators = panicked
  deal (k ∷ keys) (share ∷ shares) [] = panicked
  deal (k ∷ keys) (share ∷ shares) (v ∷ validators) = deal keys shares validators >>= λ rest. done (
    record { public_key = d.key_hex k.0; ip_address = v.ip_address } ∷ rest.0,
    record { key = d.private_key_hex k.1; share = d.share_hex share } ∷ rest.1,
  )

  -- One key is generated for each node, so their number is that of the nodes.
  unfoldable pub main :
      List h.PrivateKey → h.Poly → List h.Share → Genesis → Outcome (Genesis × List NodeFiles)
  unfolding deal
  main keys polynomial shares genesis =
      if not (length genesis.validators == length keys)
      then failed
      else (deal (sorted_keys keys) shares genesis.validators >>= λ dealt. done (
        record genesis { identity = d.polynomial_hex polynomial; validators = dealt.0 },
        dealt.1,
      ))
