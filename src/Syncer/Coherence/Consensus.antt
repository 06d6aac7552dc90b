-- ===== src/Syncer/Coherence/Consensus.antt =====
-- The messages of the consensus engine keep the archives coherent.
use sahya_net.Prelude.{ℕ, ◌-◌, ◌≡◌, refl, inl, inr, Option, none, some, Option-cases}
use sahya_net.Types.Digest.{Digest}
use sahya_net.Types.Block.{Block}
use sahya_net.Types.Certified.{Certified}
use sahya_net.Syncer.Environment.{Environment, EnvironmentLaws}
use sahya_net.Syncer.Archive.{Stores-expect, Stores-tolerate, Stores-prune, expect, tolerate}
use sahya_net.Syncer.Messages.{Message, get, broadcast, store_verified, finalize, notarize}
use sahya_net.Syncer.State.{State, Buffer, next, or_else, block_of, or_else-some, block_of-some}
use sahya_net.Syncer.Consensus.{
  find_block, on_get, on_broadcast, on_store_verified, persist_finalized, on_finalize, on_notarize,
  on_message, finalize_found, notarize_found,
}
use sahya_net.Syncer.Coherence.{
  IsVerified, IsNotarized, IsFinalized, IsBlockAt, IsCoherent, IsBuffer, Ensures,
}

module _ (e : Environment) (laws : EnvironmentLaws e) where
  pub verified-digest :
      (s : State e) (d : Digest) (b : Block e.prim)
      → IsCoherent e s
      → e.verified.get_key d s.verified ≡ some b
      → b.digest ≡ d
  verified-digest s d b c h =
      let (i, m) = laws.verified.get_key-Holds d s.verified b h in c.verified i d b m

  pub notarized-digest :
      (s : State e) (d : Digest) (b : Block e.prim)
      → IsCoherent e s
      → block_of e (e.notarized.get_key d s.notarized) ≡ some b
      → b.digest ≡ d
  notarized-digest s d b c h =
      let (n, found, same) = block_of-some e (e.notarized.get_key d s.notarized) b h in
      let (i, m) = laws.notarized.get_key-Holds d s.notarized n found in
      rw (← same) ((c.notarized i d n m).2)

  pub blocks-digest :
      (s : State e) (d : Digest) (b : Block e.prim)
      → IsCoherent e s
      → e.blocks.get_key d s.blocks ≡ some b
      → b.digest ≡ d
  blocks-digest s d b c h =
      let (i, m) = laws.blocks.get_key-Holds d s.blocks b h in (c.blocks i d b m).1

  persist_finalized-IsCoherent :
      (f : e.Finalization) (b : Block e.prim) (s : State e)
      → b.digest ≡ e.finalization.payload f
      → IsCoherent e s
      → Ensures e (IsCoherent e) (persist_finalized e f b s)
  unfolding persist_finalized
  persist_finalized-IsCoherent f b s same c =
      let payload = e.finalization.payload f in
      elim (Option-cases (expect (e.finalized.put b.height payload f s.finalized))) [
        | inl failed ↦ rw failed tt
        | inr (fs, ok) ↦ elim (Option-cases (expect (e.blocks.put b.height payload b s.blocks))) [
          | inl failed ↦ rw (ok, failed) tt
          | inr (bs, ok') ↦
              rw (ok, ok')
                (record {
                  verified =
                      Stores-prune e.verified laws.verified (IsVerified e)
                        (s.last_view_processed - e.activity_timeout) s.verified c.verified;
                  notarized =
                      Stores-prune e.notarized laws.notarized (IsNotarized e)
                        (s.last_view_processed - e.activity_timeout) s.notarized c.notarized;
                  finalized =
                      Stores-expect e.finalized laws.finalized (IsFinalized e) b.height payload f
                        s.finalized fs ok (refl, (b, refl, same)) c.finalized;
                  blocks =
                      Stores-expect e.blocks laws.blocks (IsBlockAt e) b.height payload b s.blocks
                        bs ok' (refl, same) c.blocks;
                })
        ]
      ]

  -- A block that is found for a digest, wherever it is, has that digest.
  pub find_block-digest :
      (buffer : Buffer e) (s : State e) (d : Digest) (b : Block e.prim)
      → IsBuffer e buffer
      → IsCoherent e s
      → find_block e buffer d s ≡ some b
      → b.digest ≡ d
  unfolding find_block
  find_block-digest buffer s d b hb c h =
      let stored = e.blocks.get_key d s.blocks in
      let certified = block_of e (e.notarized.get_key d s.notarized) in
      let checked = e.verified.get_key d s.verified in
      elim (or_else-some (next (buffer d)) (or_else checked (or_else certified stored)) b h) [
        | inl h0 ↦ hb d b h0
        | inr h1 ↦ elim (or_else-some checked (or_else certified stored) b h1) [
          | inl h2 ↦ verified-digest s d b c h2
          | inr h3 ↦ elim (or_else-some certified stored b h3) [
            | inl h4 ↦ notarized-digest s d b c h4
            | inr h5 ↦ blocks-digest s d b c h5
          ]
        ]
      ]

  on_store_verified-IsCoherent :
      (view : ℕ) (b : Block e.prim) (s : State e)
      → IsCoherent e s
      → Ensures e (IsCoherent e) (on_store_verified e view b s)
  unfolding on_store_verified
  on_store_verified-IsCoherent view b s c =
      elim (Option-cases (tolerate s.verified (e.verified.put view b.digest b s.verified))) [
        | inl failed ↦ rw failed tt
        | inr (vs, ok) ↦ rw ok (record {
          verified =
              Stores-tolerate e.verified laws.verified (IsVerified e) view b.digest b s.verified vs
                ok refl c.verified;
          notarized = c.notarized;
          finalized = c.finalized;
          blocks = c.blocks;
        })
      ]

  finalize_found-IsCoherent :
      (f : e.Finalization) (o : Option (Block e.prim)) (s : State e)
      → ((b : Block e.prim) → o ≡ some b → b.digest ≡ e.finalization.payload f)
      → IsCoherent e s
      → Ensures e (IsCoherent e) (finalize_found e f o s)
  unfolding finalize_found
  finalize_found-IsCoherent f none s h c = c
  finalize_found-IsCoherent f (some b) s h c = persist_finalized-IsCoherent f b s (h b refl) c

  on_finalize-IsCoherent :
      (buffer : Buffer e) (f : e.Finalization) (s : State e)
      → IsBuffer e buffer
      → IsCoherent e s
      → Ensures e (IsCoherent e) (on_finalize e buffer f s)
  unfolding on_finalize
  on_finalize-IsCoherent buffer f s hb c =
      let d = e.finalization.payload f in
      let certified = block_of e (e.notarized.get_key d s.notarized) in
      let checked = e.verified.get_key d s.verified in
      finalize_found-IsCoherent f (or_else (next (buffer d)) (or_else checked certified)) s
        (λ b h. elim (or_else-some (next (buffer d)) (or_else checked certified) b h) [
          | inl h0 ↦ hb d b h0
          | inr h1 ↦ elim (or_else-some checked certified b h1) [
            | inl h2 ↦ verified-digest s d b c h2
            | inr h3 ↦ notarized-digest s d b c h3
          ]
        ])
        c

  notarize_found-IsCoherent :
      (n : e.Notarization) (o : Option (Block e.prim)) (s : State e)
      → ((b : Block e.prim) → o ≡ some b → b.digest ≡ e.notarization.payload n)
      → IsCoherent e s
      → Ensures e (IsCoherent e) (notarize_found e n o s)
  unfolding notarize_found
  notarize_found-IsCoherent n none s h c = record {
    verified = c.verified;
    notarized = c.notarized;
    finalized = c.finalized;
    blocks = c.blocks;
  }
  notarize_found-IsCoherent n (some b) s h c =
      let view = e.notarization.view n in
      let d = e.notarization.payload n in
      let item : Certified e.prim e.Notarization = record { proof = n; block = b } in
      elim (Option-cases (tolerate s.notarized (e.notarized.put view d item s.notarized))) [
        | inl failed ↦ rw failed tt
        | inr (ns, ok) ↦ rw ok (record {
          verified = c.verified;
          notarized =
              Stores-tolerate e.notarized laws.notarized (IsNotarized e) view d item s.notarized ns
                ok (refl, refl, h b refl) c.notarized;
          finalized = c.finalized;
          blocks = c.blocks;
        })
      ]

  on_notarize-IsCoherent :
      (buffer : Buffer e) (n : e.Notarization) (s : State e)
      → IsBuffer e buffer
      → IsCoherent e s
      → Ensures e (IsCoherent e) (on_notarize e buffer n s)
  unfolding on_notarize
  on_notarize-IsCoherent buffer n s hb c =
      let d = e.notarization.payload n in
      let checked = e.verified.get_key d s.verified in
      notarize_found-IsCoherent n (or_else (next (buffer d)) checked) s
        (λ b h. elim (or_else-some (next (buffer d)) checked b h) [
          | inl h0 ↦ hb d b h0
          | inr h1 ↦ verified-digest s d b c h1
        ])
        c

  pub on_message-IsCoherent :
      (buffer : Buffer e) (m : Message e) (s : State e)
      → IsBuffer e buffer
      → IsCoherent e s
      → Ensures e (IsCoherent e) (on_message e buffer m s)
  unfolding on_message on_get on_broadcast
  on_message-IsCoherent buffer (get view d) s hb c = c
  on_message-IsCoherent buffer (broadcast b) s hb c = c
  on_message-IsCoherent buffer (store_verified view b) s hb c =
      on_store_verified-IsCoherent view b s c
  on_message-IsCoherent buffer (finalize f) s hb c = on_finalize-IsCoherent buffer f s hb c
  on_message-IsCoherent buffer (notarize n) s hb c = on_notarize-IsCoherent buffer n s hb c
