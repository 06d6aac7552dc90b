-- ===== src/Syncer/Faults.antt =====
-- What a peer can do to the syncer with bytes that no honest node sends: most are refused and change
-- nothing, and some make the loop panic.
mod Tests
use sahya_net.Prelude.{
  ℕ, ◌<◌, ◌^◌, ◌≡◌, refl, ◌⊎◌, inl, inr, Bool, true, false, not, Option, none, some, List, [], ◌∷◌,
  ◌++◌, Bytes, length, ◌==◌, Option-cases, Bool-cases, arith,
}
use sahya_net.Types.Digest.{Digest, digest_eq}
use sahya_net.Types.Reading.{Reading, done, invalid, panic}
use sahya_net.Types.Block.{Block}
use sahya_net.Types.Certified.{Certificate, Certified, decode}
use sahya_net.Types.Certified.Codec.{decode-truncated_panics}
use sahya_net.Syncer.Environment.{Environment, EnvironmentLaws}
use sahya_net.Syncer.Archive.{Archive, expect, tolerate}
use sahya_net.Syncer.Key.{MultiIndex, Value, notarized, finalized, digest, new, to_value, read_cfg}
use sahya_net.Syncer.Key.RoundTrip.{to_value-new}
use sahya_net.Syncer.Key.Reject.{read_cfg-to_value_panics}
use sahya_net.Syncer.State.{State, Effect, respond_bool, Turn, Buffer}
use sahya_net.Syncer.Resolve.{
  refuse, accept_notarized, accept_finalized, accept_block, parsed, decode_block, deliver_value,
  on_deliver, produce_value, on_produce,
}

module _ (e : Environment) where
  -- If the turn answers `false`, that is all that it does, and the state is as it was.
  abbrev pub RefusalKeeps : State e → Turn e → Type 0
  RefusalKeeps s none = Unit
  RefusalKeeps s (some (s', effects)) =
      (b : Bool) (rest : List (Effect e))
      → effects ≡ respond_bool b ∷ rest
      → b ≡ false
      → (s' ≡ s) × (rest ≡ [])

  refuse-RefusalKeeps : (s : State e) → RefusalKeeps s (refuse e s)
  unfolding refuse
  refuse-RefusalKeeps s b rest h f = (refl, cc)

  accept_notarized-RefusalKeeps :
      (view : ℕ) (n : Certified e.prim e.Notarization) (s : State e)
      → RefusalKeeps s (accept_notarized e view n s)
  unfolding accept_notarized
  accept_notarized-RefusalKeeps view n s =
      elim (Bool-cases (e.notarization.verify e.namespace e.identity n.proof)) [
        | inr bad ↦ rw bad (refuse-RefusalKeeps s)
        | inl valid ↦ elim (Bool-cases (e.notarization.view n.proof == view)) [
          | inr other ↦ rw (valid, other) (refuse-RefusalKeeps s)
          | inl same ↦
              elim (Option-cases
                (tolerate s.notarized (e.notarized.put view n.block.digest n s.notarized))) [
                  | inl failed ↦ rw (valid, same, failed) tt
                  | inr (ns, ok) ↦ rw (valid, same, ok) (λ b rest h f. cc)
                ]
        ]
      ]

  accept_finalized-RefusalKeeps :
      (height : ℕ) (g : Certified e.prim e.Finalization) (s : State e)
      → RefusalKeeps s (accept_finalized e height g s)
  unfolding accept_finalized
  accept_finalized-RefusalKeeps height g s =
      elim (Bool-cases (e.finalization.verify e.namespace e.identity g.proof)) [
        | inr bad ↦ rw bad (refuse-RefusalKeeps s)
        | inl valid ↦ elim (Bool-cases (g.block.height == height)) [
          | inr other ↦ rw (valid, other) (refuse-RefusalKeeps s)
          | inl same ↦
              elim (Option-cases
                (expect (e.finalized.put height g.block.digest g.proof s.finalized))) [
                  | inl failed ↦ rw (valid, same, failed) tt
                  | inr (fs, ok) ↦
                      elim (Option-cases
                        (expect (e.blocks.put height g.block.digest g.block s.blocks))) [
                          | inl failed ↦ rw (valid, same, ok, failed) tt
                          | inr (bs, ok') ↦ rw (valid, same, ok, ok') (λ b rest h f. cc)
                        ]
                ]
        ]
      ]

  accept_block-RefusalKeeps :
      (d : Digest) (block : Block e.prim) (s : State e) → RefusalKeeps s (accept_block e d block s)
  unfolding accept_block
  accept_block-RefusalKeeps d block s = elim (Bool-cases (digest_eq block.digest d)) [
    | inr other ↦ rw other (refuse-RefusalKeeps s)
    | inl same ↦ elim (Option-cases (expect (e.blocks.put block.height d block s.blocks))) [
      | inl failed ↦ rw (same, failed) tt
      | inr (bs, ok) ↦ rw (same, ok) (λ b rest h f. cc)
    ]
  ]

  parsed-RefusalKeeps :
      {A : Type 0} (r : Reading A) (k : A → State e → Turn e) (s : State e)
      → ((a : A) → RefusalKeeps s (k a s))
      → RefusalKeeps s (parsed e r k s)
  parsed-RefusalKeeps (done a rest) k s p = p a
  parsed-RefusalKeeps invalid k s p = refuse-RefusalKeeps s
  parsed-RefusalKeeps panic k s p = tt

  deliver_value-RefusalKeeps :
      (v : Option Value) (value : Bytes) (s : State e) → RefusalKeeps s (deliver_value e v value s)
  unfolding deliver_value
  deliver_value-RefusalKeeps none value s = tt
  deliver_value-RefusalKeeps (some (notarized view)) value s =
      parsed-RefusalKeeps _ (accept_notarized e view) s
        (λ n. accept_notarized-RefusalKeeps view n s)
  deliver_value-RefusalKeeps (some (finalized height)) value s =
      parsed-RefusalKeeps _ (accept_finalized e height) s
        (λ g. accept_finalized-RefusalKeeps height g s)
  deliver_value-RefusalKeeps (some (digest d)) value s =
      parsed-RefusalKeeps _ (accept_block e d) s (λ block. accept_block-RefusalKeeps d block s)

  -- A delivery that is answered with `false` leaves the state as it was and has no other effect.
  pub refused_unchanged :
      (key : MultiIndex) (value : Bytes) (s s' : State e) (rest : List (Effect e))
      → on_deliver e key value s ≡ some (s', respond_bool false ∷ rest)
      → (s' ≡ s) × (rest ≡ [])
  unfolding on_deliver
  refused_unchanged key value s s' rest h =
      (rw h at (deliver_value-RefusalKeeps (to_value key) value s)) false rest refl refl

  -- A request for any 33 bytes that begin with a byte above 2 is read as a key, and the turn that
  -- answers it panics in every state.
  pub produce_bad_key_panics :
      (buffer : Buffer e) (tag : ℕ) (body : Bytes) (s : State e)
      → length body ≡ 32
      → 2 < tag
      → (key : MultiIndex) × (read_cfg (tag ∷ body) ≡ some (key, []))
        × (on_produce e buffer key s ≡ none)
  unfolding on_produce produce_value
  produce_bad_key_panics buffer tag body s size big =
      let (key, reads, none_value) = read_cfg-to_value_panics tag body size big in
      (key, reads, rw none_value)

module _ (e : Environment) (laws : EnvironmentLaws e) where
  -- A delivery for a view that is any well-formed notarization with less than 4 bytes behind it makes
  -- the turn panic in every state: the notarization is not even verified.
  pub deliver_truncated_panics :
      (view : ℕ) (n : e.Notarization) (tail : Bytes) (s : State e)
      → view < 2 ^ 64
      → length tail < 4
      → on_deliver e (new (notarized view)) (e.notarization.write n ++ tail) s ≡ none
  unfolding on_deliver deliver_value
  deliver_truncated_panics view n tail s range short = rw (
    to_value-new (notarized view) range,
    decode-truncated_panics e.prim e.notarization laws.prim laws.notarization n tail short,
  )
