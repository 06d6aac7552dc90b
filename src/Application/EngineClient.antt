-- ===== src/Application/EngineClient.antt =====
-- application/src/engine_client.rs: the calls that drive the execution client. The client is behind
-- the provider of alloy, with the Engine API; it keeps a state of its own, which each call may change.
-- A call that fails is unwrapped: `none` is a panic.
pub mod Turns
pub mod Head
pub mod Leader
mod Tests
use sahya_net.Prelude.{ℕ, ◌≡◌, ◌⊎◌, Bool, true, Option, none, some, List, [], Bytes, replicate}
use sahya_net.Types.Digest.{Digest}
use sahya_net.Types.Primitives.{Primitives}
use sahya_net.Types.Block.{Block, ◌>>=◌}
use sahya_net.Application.Finalizer.{Forkchoice, forkchoice_of}
use sahya_net.Application.Proposal.{PayloadAttributes, attributes_of, Envelope}
use Prim.Native.String.{String}

-- `RootProvider` with `EngineApi`. `none` is an error of the call.
pub record Provider (x : Primitives) : Type 1 where
  pub Client : Type 0
  -- `PayloadStatus` and its `is_valid`
  pub Status : Type 0
  pub is_valid : Status → Bool
  -- the answer is that of the payload id
  pub fork_choice_updated_v3 :
      Forkchoice → Option PayloadAttributes → Client → Option (Client × Option ℕ)
  pub get_payload_v4 : ℕ → Client → Option (Client × Envelope x)
  -- the payload, the versioned hashes, the parent's beacon block root, the requests
  pub new_payload_v4 :
      x.Payload → List Digest → Digest → List Bytes → Client → Option (Client × Status)

-- What the specification of the Engine API says of a client that can be reached.
pub record ProviderLaws {x : Primitives} (p : Provider x) : Type 1 where
  -- the hash of the canonical head
  pub head : p.Client → Digest
  pub IsValid : p.Client → x.Payload → Type 0
  pub IsBuilding : p.Client → ℕ → Digest → Type 0
  -- a payload is checked without a change of the head
  pub checks :
      (payload : x.Payload) (hashes : List Digest) (root : Digest) (requests : List Bytes)
      (c : p.Client)
      → (c' : p.Client) × (status : p.Status) × (p.new_payload_v4 payload hashes root requests c
          ≡ some (c', status))
        × (head c' ≡ head c)
        × (p.is_valid status ≡ true → IsValid c' payload)
  -- a valid payload on the head, or that of the head, can be made the head
  pub sets :
      (payload : x.Payload) (c : p.Client)
      → IsValid c payload
      → (x.parent_hash payload ≡ head c) ⊎ (x.block_hash payload ≡ head c)
      → (c' : p.Client) × (id : Option ℕ) × (p.fork_choice_updated_v3
            (forkchoice_of (x.block_hash payload))
            none
            c
          ≡ some (c', id))
        × (head c' ≡ x.block_hash payload)
  -- with attributes, a payload is begun on the head that is given
  pub begins :
      (f : Forkchoice) (a : PayloadAttributes) (c c' : p.Client) (id : ℕ)
      → p.fork_choice_updated_v3 f (some a) c ≡ some (c', some id)
      → IsBuilding c' id f.head_block_hash
  -- and is what is got
  pub gets :
      (id : ℕ) (d : Digest) (c c' : p.Client) (e : Envelope x)
      → IsBuilding c id d
      → p.get_payload_v4 id c ≡ some (c', e)
      → x.parent_hash e.execution_payload ≡ d

-- `EngineClient::new`: the secret and the URL are read; what connects them is hyper, tower and alloy.
unfoldable pub new :
    {Url Secret Uri P : Type 0}
    → (String → Option Secret)
    → (Url → Option Uri)
    → (Secret → Uri → P)
    → Url
    → String
    → Option P
new from_hex parse connect engine_url jwt_secret = do
  secret ← from_hex jwt_secret
  url ← parse engine_url
  some (connect secret url)

module _ {x : Primitives} (p : Provider x) where
  unfoldable pub start_building_block : Forkchoice → ℕ → p.Client → Option (p.Client × Option ℕ)
  start_building_block fork_choice_state timestamp c =
      p.fork_choice_updated_v3 fork_choice_state (some (attributes_of timestamp)) c

  unfoldable pub get_payload : ℕ → p.Client → Option (p.Client × Envelope x)
  get_payload payload_id c = p.get_payload_v4 payload_id c

  unfoldable pub check_payload : Block x → p.Client → Option (p.Client × p.Status)
  check_payload block c =
      p.new_payload_v4 block.execution_payload [] (replicate 32 1) block.execution_requests c

  unfoldable pub commit_hash : Forkchoice → p.Client → Option p.Client
  commit_hash fork_choice_state c = do
    res ← p.fork_choice_updated_v3 fork_choice_state none c
    some res.0
