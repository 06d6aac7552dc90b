-- ===== src/Syncer/Opening/Restart.antt =====
-- A node that is stopped opens its archives again.
use sahya_net.Prelude.{ℕ, ◌≡◌, refl, Option, none, some}
use sahya_net.Types.Digest.{Digest}
use sahya_net.Syncer.Environment.{Environment}
use sahya_net.Syncer.Archive.{Archive}
use sahya_net.Syncer.State.{State, ◌>>=◌}
use sahya_net.Syncer.Actor.{init}
use sahya_net.Syncer.Coherence.{IsCoherent}
use sahya_net.Syncer.Opening.{
  Storage, new, verified_config, notarized_config, finalized_config, block_config,
}
use Prim.Native.String.{String}

>>=-some :
    {A B : Type 0} (m : Option A) (f : A → Option B) {b : B}
    → (m >>= f) ≡ some b
    → (a : A) × (m ≡ some a) × (f a ≡ some b)
>>=-some none f h = cc
>>=-some (some a) f h = (a, refl, h)

-- Every item of the one archive is an item of the other. The archives are not synced after each
-- `put`, so a node that stops may lose the last items.
abbrev IsPart : {V : Type 0} (a : Archive V) → a.Store → a.Store → Type 0
IsPart {V} a s' s = (i : ℕ) (k : Digest) (v : V) → a.Holds s' i k v → a.Holds s i k v

-- The storage as it can be found after a stop in the given state.
pub record IsLeft {e : Environment} (d : Storage e) (prefix : String) (s : State e) (disk : d.Disk)
    : Type 0 where
  pub verified :
      (s' : e.verified.Store)
      → d.init_verified (verified_config prefix) disk ≡ some s'
      → IsPart e.verified s' s.verified
  pub notarized :
      (s' : e.notarized.Store)
      → d.init_notarized (notarized_config prefix) disk ≡ some s'
      → IsPart e.notarized s' s.notarized
  pub finalized :
      (s' : e.finalized.Store)
      → d.init_finalized (finalized_config prefix) disk ≡ some s'
      → IsPart e.finalized s' s.finalized
  pub blocks :
      (s' : e.blocks.Store)
      → d.init_blocks (block_config prefix) disk ≡ some s'
      → IsPart e.blocks s' s.blocks

-- The archives of the one state have no items but those of the other.
pub record IsReopened (e : Environment) (s s' : State e) : Type 0 where
  pub verified : IsPart e.verified s'.verified s.verified
  pub notarized : IsPart e.notarized s'.notarized s.notarized
  pub finalized : IsPart e.finalized s'.finalized s.finalized
  pub blocks : IsPart e.blocks s'.blocks s.blocks

module _ {e : Environment} (d : Storage e) (prefix : String) where
  pub new-IsReopened :
      (s s' : State e) (disk : d.Disk)
      → IsLeft d prefix s disk
      → new d prefix disk ≡ some s'
      → IsReopened e s s'
  unfolding new init
  new-IsReopened s s' disk left opened =
      let (v, at_v, o1) = >>=-some (d.init_verified (verified_config prefix) disk) _ opened in
      let (n, at_n, o2) = >>=-some (d.init_notarized (notarized_config prefix) disk) _ o1 in
      let (f, at_f, o3) = >>=-some (d.init_finalized (finalized_config prefix) disk) _ o2 in
      let (b, at_b, o4) = >>=-some (d.init_blocks (block_config prefix) disk) _ o3 in
      let same : init e v n f b ≡ s' = cc in
      rw (← same) (record {
        verified = left.verified v at_v;
        notarized = left.notarized n at_n;
        finalized = left.finalized f at_f;
        blocks = left.blocks b at_b;
      })

  -- What is opened after a stop is coherent if the archives were when the node stopped.
  pub new-IsCoherent :
      (s s' : State e) (disk : d.Disk)
      → IsCoherent e s
      → IsLeft d prefix s disk
      → new d prefix disk ≡ some s'
      → IsCoherent e s'
  new-IsCoherent s s' disk c left opened =
      let r = new-IsReopened s s' disk left opened in
      record {
        verified = λ i k x h. c.verified i k x (r.verified i k x h);
        notarized = λ i k x h. c.notarized i k x (r.notarized i k x h);
        finalized = λ i k x h. c.finalized i k x (r.finalized i k x h);
        blocks = λ i k x h. c.blocks i k x (r.blocks i k x h);
      }
