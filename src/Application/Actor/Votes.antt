-- ===== src/Application/Actor/Votes.antt =====
-- What the application votes for, stores and broadcasts.
use sahya_net.Prelude.{
  ℕ, ◌≡◌, ◌⊎◌, inl, inr, Bool, true, false, none, some, [], ◌∷◌, ◌++◌, Bool-cases,
}
use sahya_net.Types.Digest.{Digest}
use sahya_net.Types.Primitives.{Primitives}
use sahya_net.Types.Block.{Block}
use sahya_net.Application.Verify.{handle_verify, Extends, handle_verify_iff}
use sahya_net.Application.Proposal.{parent_of}
use sahya_net.Application.Actor.{
  State, Answers, respond_vote, get, store_verified, request_parent, vote, on_verify,
}

module _ (x : Primitives) where
  not_both : (b : Bool) → b ≡ false → b ≡ true → ⊥
  not_both b h k = cc

  -- If a verification is not aborted and both blocks come, the node votes for the block and stores it,
  -- before the vote, exactly if it extends the parent; otherwise it votes against it and stores nothing.
  -- Nothing but the syncer is asked, so that the vote does not depend on whether the execution client
  -- calls the payload valid.
  pub on_verify_votes :
      (view : ℕ) (parent : ℕ × Digest) (payload : Digest) (a : Answers x) (s : State x)
      (p b : Block x)
      → a.aborted ≡ false
      → parent_of x s.genesis_hash parent.1 a.verified_parent ≡ some p
      → a.verified_block ≡ some b
      → let asked = request_parent x s.genesis_hash parent ++ get none payload ∷ [] in
        (Extends x b p
          × (on_verify x view parent payload a s
              ≡ some (s, asked ++ store_verified view b ∷ respond_vote true ∷ [])))
        ⊎ (¬ Extends x b p
            × (on_verify x view parent payload a s ≡ some (s, asked ++ respond_vote false ∷ [])))
  unfolding on_verify vote
  on_verify_votes view parent payload a s p b live hp hb = elim (Bool-cases (handle_verify x b p)) [
    | inl good ↦ inl ((handle_verify_iff x b p).0 good, rw (live, hp, hb, good))
    | inr bad ↦ inr (
      λ ext. not_both (handle_verify x b p) bad ((handle_verify_iff x b p).1 ext),
      rw (live, hp, hb, bad),
    )
  ]
