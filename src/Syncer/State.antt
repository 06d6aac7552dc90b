-- ===== src/Syncer/State.antt =====
-- The state of the syncer's loop (syncer/src/actor.rs) and what a turn of it does to the outside.
use sahya_net.Prelude.{ℕ, ◌≡◌, refl, ◌⊎◌, inl, inr, Bool, Option, none, some, List, [], ◌∷◌, Bytes}
use sahya_net.Types.Digest.{Digest}
use sahya_net.Types.Block.{Block}
use sahya_net.Types.Certified.{Certified}
use sahya_net.Syncer.Environment.{Environment}
use sahya_net.Syncer.Key.{MultiIndex}

pub record State (e : Environment) : Type 0 where
  pub verified : e.verified.Store
  pub notarized : e.notarized.Store
  pub finalized : e.finalized.Store
  pub blocks : e.blocks.Store
  pub latest_view : ℕ
  pub requested_blocks : List ℕ
  pub last_view_processed : ℕ
  pub outstanding_notarize : List ℕ

-- A call of the resolver, the buffer or the finalizer's channel, or an answer to the message.
pub data Effect (e : Environment) : Type 0 where
  fetch : MultiIndex → Effect e
  cancel : MultiIndex → Effect e
  buffer_broadcast : Block e.prim → Effect e
  subscribe_prepared : Digest → Effect e
  notify_finalizer : Effect e
  respond_block : Block e.prim → Effect e
  respond_found : Option (Block e.prim) → Effect e
  respond_bool : Bool → Effect e
  respond_bytes : Bytes → Effect e

-- The state after a turn and its effects in order; `none` is a panic.
abbrev pub Turn : Environment → Type 0
Turn e = Option (State e × List (Effect e))

-- What `buffer.get(None, digest, Some(digest))` returns at the time of a turn.
abbrev pub Buffer : Environment → Type 0
Buffer e = Digest → List (Block e.prim)

infixl 5 ◌>>=◌
abbrev pub ◌>>=◌ {ℓ κ} : {A : Type ℓ} {B : Type κ} → Option A → (A → Option B) → Option B
none >>= f = none
some a >>= f = f a

-- `into_iter().next()`
abbrev pub next : {A : Type 0} → List A → Option A
next [] = none
next (a ∷ l) = some a

-- `if block.is_none() { block = .. }`
abbrev pub or_else : {A : Type 0} → Option A → Option A → Option A
or_else none rest = rest
or_else (some a) rest = some a

-- `.map(|notarized| notarized.block)`
abbrev pub block_of :
    (e : Environment) → Option (Certified e.prim e.Notarization) → Option (Block e.prim)
block_of e none = none
block_of e (some n) = some n.block

pub or_else-some :
    {A : Type 0} (o p : Option A) (a : A) → or_else o p ≡ some a → (o ≡ some a) ⊎ (p ≡ some a)
or_else-some none p a h = inr h
or_else-some (some b) p a h = inl h

pub block_of-some :
    (e : Environment) (o : Option (Certified e.prim e.Notarization)) (b : Block e.prim)
    → block_of e o ≡ some b
    → (n : Certified e.prim e.Notarization) × (o ≡ some n) × (n.block ≡ b)
block_of-some e none b h = cc
block_of-some e (some n) b h = (n, refl, cc)
