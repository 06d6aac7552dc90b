-- ===== src/Syncer/Agreement/Consensus.antt =====
-- The messages of the consensus engine store and fetch final blocks only.
use sahya_net.Prelude.{ℕ, ◌-◌, ◌≡◌, refl, inl, inr, Option, none, some, List, All, Option-cases}
use sahya_net.Types.Digest.{Digest}
use sahya_net.Types.Block.{Block}
use sahya_net.Types.Certified.{Certified}
use sahya_net.Syncer.Environment.{Environment, EnvironmentLaws}
use sahya_net.Syncer.Archive.{Stores-expect, Stores-tolerate, Stores-prune, expect, tolerate}
use sahya_net.Syncer.Messages.{Message, get, broadcast, store_verified, finalize, notarize}
use sahya_net.Syncer.State.{State, Buffer, next, or_else, block_of, or_else-some, block_of-some}
use sahya_net.Syncer.Consensus.{
  answer_get, on_get, on_broadcast, on_store_verified, on_finalize, on_notarize, on_message,
  finalize_found, notarize_found,
}
use sahya_net.Syncer.Actor.{mailbox}
use sahya_net.Syncer.Key.{MultiIndex}
use sahya_net.Syncer.Agreement.{
  Network, IsGenuine, OnlyFinal, FetchesFinal, Ends, Arrives, IsSound, digest-IsFinalKey,
  notarized-IsFinalKey,
}

module _ {e : Environment} (laws : EnvironmentLaws e) (net : Network e) where
  pub verified-IsGenuine :
      (s : State e) (d : Digest) (b : Block e.prim)
      → OnlyFinal net s
      → e.verified.get_key d s.verified ≡ some b
      → IsGenuine e b
  verified-IsGenuine s d b c h =
      let (i, m) = laws.verified.get_key-Holds d s.verified b h in c.verified i d b m

  pub notarized-IsGenuine :
      (s : State e) (d : Digest) (b : Block e.prim)
      → OnlyFinal net s
      → block_of e (e.notarized.get_key d s.notarized) ≡ some b
      → IsGenuine e b
  notarized-IsGenuine s d b c h =
      let (n, found, same) = block_of-some e (e.notarized.get_key d s.notarized) b h in
      let (i, m) = laws.notarized.get_key-Holds d s.notarized n found in
      rw (← same) (c.notarized i d n m)

  -- A block that is stored with its finalization.
  finalize_found-Ends :
      (f : e.Finalization) (o : Option (Block e.prim)) (s : State e)
      → ((b : Block e.prim) → o ≡ some b → IsGenuine e b)
      → net.Final (e.finalization.payload f)
      → OnlyFinal net s
      → Ends net (finalize_found e f o s)
  unfolding finalize_found
  finalize_found-Ends f none s genuine final c =
      (c, (digest-IsFinalKey net (e.finalization.payload f) final, tt))
  finalize_found-Ends f (some b) s genuine final c =
      let payload = e.finalization.payload f in
      elim (Option-cases (expect (e.finalized.put b.height payload f s.finalized))) [
        | inl failed ↦ rw failed tt
        | inr (fs, ok) ↦ elim (Option-cases (expect (e.blocks.put b.height payload b s.blocks))) [
          | inl failed ↦ rw (ok, failed) tt
          | inr (bs, ok') ↦
              rw (ok, ok')
                (
                  record {
                    verified =
                        Stores-prune e.verified laws.verified (λ i k b. IsGenuine e b)
                          (s.last_view_processed - e.activity_timeout) s.verified c.verified;
                    notarized =
                        Stores-prune e.notarized laws.notarized (λ i k n. IsGenuine e n.block)
                          (s.last_view_processed - e.activity_timeout) s.notarized c.notarized;
                    blocks =
                        Stores-expect e.blocks laws.blocks (λ i k b. IsGenuine e b × net.Final k)
                          b.height payload b s.blocks bs ok' (genuine b refl, final) c.blocks;
                  },
                  (tt, tt),
                )
        ]
      ]

  notarize_found-Ends :
      (n : e.Notarization) (o : Option (Block e.prim)) (s : State e)
      → ((b : Block e.prim) → o ≡ some b → IsGenuine e b)
      → OnlyFinal net s
      → Ends net (notarize_found e n o s)
  unfolding notarize_found
  notarize_found-Ends n none s genuine c = (
    record { verified = c.verified; notarized = c.notarized; blocks = c.blocks },
    (notarized-IsFinalKey net (e.notarization.view n), tt),
  )
  notarize_found-Ends n (some b) s genuine c =
      let view = e.notarization.view n in
      let d = e.notarization.payload n in
      let item : Certified e.prim e.Notarization = record { proof = n; block = b } in
      elim (Option-cases (tolerate s.notarized (e.notarized.put view d item s.notarized))) [
        | inl failed ↦ rw failed tt
        | inr (ns, ok) ↦ rw ok (
          record {
            verified = c.verified;
            notarized =
                Stores-tolerate e.notarized laws.notarized (λ i k n. IsGenuine e n.block) view d
                  item s.notarized ns ok (genuine b refl) c.notarized;
            blocks = c.blocks;
          },
          tt,
        )
      ]

  on_store_verified-Ends :
      (view : ℕ) (b : Block e.prim) (s : State e)
      → IsGenuine e b
      → OnlyFinal net s
      → Ends net (on_store_verified e view b s)
  unfolding on_store_verified
  on_store_verified-Ends view b s genuine c =
      elim (Option-cases (tolerate s.verified (e.verified.put view b.digest b s.verified))) [
        | inl failed ↦ rw failed tt
        | inr (vs, ok) ↦ rw ok (
          record {
            verified =
                Stores-tolerate e.verified laws.verified (λ i k b. IsGenuine e b) view b.digest b
                  s.verified vs ok genuine c.verified;
            notarized = c.notarized;
            blocks = c.blocks;
          },
          tt,
        )
      ]

  answer_get-fetches :
      (view : Option ℕ) (d : Digest) (o : Option (Block e.prim))
      → All (FetchesFinal net) (answer_get e view d o)
  unfolding answer_get
  answer_get-fetches view d (some b) = (tt, tt)
  answer_get-fetches none d none = (tt, tt)
  answer_get-fetches (some view) d none = (notarized-IsFinalKey net view, (tt, tt))

  pub on_message-Ends :
      (buffer : Buffer e) (m : Message e) (s : State e) (keys : List MultiIndex)
      → IsSound e buffer
      → Arrives keys (mailbox m)
      → OnlyFinal net s
      → Ends net (on_message e buffer m s)
  unfolding on_message on_get on_broadcast on_finalize on_notarize
  on_message-Ends buffer (get view d) s keys sound arrives c = (c, answer_get-fetches view d _)
  on_message-Ends buffer (broadcast b) s keys sound arrives c = (c, (tt, tt))
  on_message-Ends buffer (store_verified view b) s keys sound arrives c =
      on_store_verified-Ends view b s arrives c
  on_message-Ends buffer (finalize f) s keys sound arrives c =
      let d = e.finalization.payload f in
      let certified = block_of e (e.notarized.get_key d s.notarized) in
      let checked = e.verified.get_key d s.verified in
      finalize_found-Ends f (or_else (next (buffer d)) (or_else checked certified)) s
        (λ b h. elim (or_else-some (next (buffer d)) (or_else checked certified) b h) [
          | inl h0 ↦ sound.genuine d b h0
          | inr h1 ↦ elim (or_else-some checked certified b h1) [
            | inl h2 ↦ verified-IsGenuine s d b c h2
            | inr h3 ↦ notarized-IsGenuine s d b c h3
          ]
        ])
        (net.certified f arrives) c
  on_message-Ends buffer (notarize n) s keys sound arrives c =
      let d = e.notarization.payload n in
      let checked = e.verified.get_key d s.verified in
      notarize_found-Ends n (or_else (next (buffer d)) checked) s
        (λ b h. elim (or_else-some (next (buffer d)) checked b h) [
          | inl h0 ↦ sound.genuine d b h0
          | inr h1 ↦ verified-IsGenuine s d b c h1
        ])
        c
