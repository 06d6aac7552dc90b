-- ===== src/Application/Finalizer/Order.antt =====
-- Blocks are committed one height after the other, and the height survives a restart.
use sahya_net.Prelude.{
  ℕ, zero, suc, ◌+◌, ◌%◌, ◌^◌, ◌<◌, ◌≤◌, ◌≡◌, refl, sym, ap, ◌∙◌, ◌⊎◌, inl, inr, Option, none, some,
  List, [], ◌∷◌, ◌++◌, length, Bool-cases, arith,
}
use sahya_net.Types.Primitives.{Primitives}
use sahya_net.Types.Block.{Block, eth_block_hash}
use sahya_net.Application.Notifier.{notify_up_to}
use sahya_net.Application.Finalizer.{
  Forkchoice, forkchoice_of, Finalizer, Answers, Effect, get, check_payload, commit_hash, processed,
  unwrap_or, new, sends, commit, idle, turn_on, turn, run,
}

module _ (x : Primitives) where
  -- The heights that are reported as processed, in order.
  unfoldable pub heights_of : List (Effect x) → List ℕ
  heights_of [] = []
  heights_of (processed height d ∷ rest) = height ∷ heights_of rest
  heights_of (effect ∷ rest) = heights_of rest

  -- `first`, `first + 1`, ..., of the given length.
  abbrev pub count_up : ℕ → ℕ → List ℕ
  count_up first zero = []
  count_up first (suc n) = first ∷ count_up (suc first) n

  -- The last forkchoice that was sent, or the given one.
  unfoldable pub last_commit : Forkchoice → List (Effect x) → Forkchoice
  last_commit f [] = f
  last_commit f (commit_hash g ∷ rest) = last_commit g rest
  last_commit f (effect ∷ rest) = last_commit f rest

  heights_of-append : (a b : List (Effect x)) → heights_of (a ++ b) ≡ heights_of a ++ heights_of b
  unfolding heights_of
  heights_of-append [] b = refl
  heights_of-append (processed h d ∷ a) b = ap (λ l. h ∷ l) (heights_of-append a b)
  heights_of-append (effect ∷ a) b = heights_of-append a b

  last_commit-append :
      (f : Forkchoice) (a b : List (Effect x))
      → last_commit f (a ++ b) ≡ last_commit (last_commit f a) b
  unfolding last_commit
  last_commit-append f [] b = refl
  last_commit-append f (commit_hash g ∷ a) b = last_commit-append g a b
  last_commit-append f (effect ∷ a) b = last_commit-append f a b

  heights_of-sends :
      (l : List ℕ) (last : List (Effect x)) → heights_of (sends x l last) ≡ heights_of last
  unfolding heights_of
  heights_of-sends [] last = refl
  heights_of-sends (s ∷ l) last = heights_of-sends l last

  last_commit-sends :
      (f : Forkchoice) (l : List ℕ) (last : List (Effect x))
      → last_commit f (sends x l last) ≡ last_commit f last
  unfolding last_commit
  last_commit-sends f [] last = refl
  last_commit-sends f (s ∷ l) last = last_commit-sends f l last

  -- What a turn does to the height: it processes nothing and stays, or it processes the next height.
  pub record IsStep (s s' : Finalizer) (effects : List (Effect x)) : Type 0 where
    pub heights :
        ((heights_of effects ≡ []) × (s'.last_indexed ≡ s.last_indexed) × (s'.durable ≡ s.durable))
        ⊎ ((heights_of effects ≡ (s.last_indexed + 1) ∷ [])
            × (s'.last_indexed ≡ s.last_indexed + 1)
            × (s'.durable ≡ some (s.last_indexed + 1)))
    pub tip : s'.forkchoice ≡ last_commit s.forkchoice effects

  idle-IsStep :
      (next : ℕ) (a : Answers x) (s : Finalizer) → IsStep s (idle x next a s).0 (idle x next a s).1
  unfolding idle heights_of last_commit
  idle-IsStep next a s = ground arith

  commit-IsStep :
      (next : ℕ) (b : Block x) (s : Finalizer)
      → next ≡ s.last_indexed + 1
      → IsStep s (commit x next b s).0 (commit x next b s).1
  unfolding commit heights_of last_commit
  commit-IsStep next b s e =
      let senders = (notify_up_to next s.pending).1 in
      let rest : List (Effect x) = processed next b.digest ∷ [] in
      record {
        heights = inr (heights_of-sends senders rest ∙ ap (λ h. h ∷ []) e, e, ap some e);
        tip = sym (last_commit-sends (forkchoice_of (eth_block_hash x b)) senders rest);
      }

  -- Two more effects in front that report nothing change nothing.
  IsStep-get :
      (height : ℕ) (s s' : Finalizer) (effects : List (Effect x))
      → IsStep s s' effects
      → IsStep s s' (get height ∷ effects)
  unfolding heights_of last_commit
  IsStep-get height s s' effects h = record { heights = h.heights; tip = h.tip }

  IsStep-check :
      (b : Block x) (s s' : Finalizer) (effects : List (Effect x))
      → IsStep s s' effects
      → IsStep s s' (check_payload b ∷ effects)
  unfolding heights_of last_commit
  IsStep-check b s s' effects h = record { heights = h.heights; tip = h.tip }

  turn_on-IsStep :
      (next : ℕ) (a : Answers x) (o : Option (Block x)) (s : Finalizer)
      → next ≡ s.last_indexed + 1
      → IsStep s (turn_on x next a o s).0 (turn_on x next a o s).1
  unfolding turn_on
  turn_on-IsStep next a none s e =
      IsStep-get next s (idle x next a s).0 (idle x next a s).1 (idle-IsStep next a s)
  turn_on-IsStep next a (some b) s e = elim (Bool-cases a.is_valid) [
    | inl valid ↦ rw valid (IsStep-get next s _ _ (IsStep-check b s _ _ (commit-IsStep next b s e)))
    | inr bad ↦ rw bad (IsStep-get next s _ _ (IsStep-check b s _ _ (idle-IsStep next a s)))
  ]

  pub turn-IsStep :
      (a : Answers x) (s : Finalizer)
      → s.last_indexed + 1 < 2 ^ 64
      → IsStep s (turn x a s).0 (turn x a s).1
  unfolding turn
  turn-IsStep a s range = turn_on-IsStep ((s.last_indexed + 1) % 2 ^ 64) a a.block s (omega arith)

  -- What a run does: it processes a number of heights, one after the other.
  pub record IsRun (s s' : Finalizer) (effects : List (Effect x)) : Type 0 where
    pub processed_count : ℕ
    pub heights : heights_of effects ≡ count_up (s.last_indexed + 1) processed_count
    pub last : s'.last_indexed ≡ s.last_indexed + processed_count
    pub durable : unwrap_or s.durable 0 ≡ s.last_indexed → unwrap_or s'.durable 0 ≡ s'.last_indexed
    pub tip : s'.forkchoice ≡ last_commit s.forkchoice effects

  pub IsStep-le :
      (s s' : Finalizer) (effects : List (Effect x))
      → IsStep s s' effects
      → s'.last_indexed ≤ s.last_indexed + 1
  IsStep-le s s' effects h = elim h.heights [ inl stay ↦ omega arith | inr up ↦ omega arith ]

  IsRun-cons :
      (s s1 s2 : Finalizer) (a b : List (Effect x))
      → IsStep s s1 a
      → IsRun s1 s2 b
      → IsRun s s2 (a ++ b)
  IsRun-cons s s1 s2 a b step later = elim step.heights [
    | inl (none_done, same, kept) ↦ record {
      processed_count = later.processed_count;
      heights = heights_of-append a b ∙ rw (none_done, ← same) later.heights;
      last = later.last ∙ omega arith;
      durable = λ h. later.durable (rw (kept, same) h);
      tip = later.tip ∙ rw step.tip (sym (last_commit-append s.forkchoice a b));
    }
    | inr (one, up, kept) ↦ record {
      processed_count = suc later.processed_count;
      heights =
          heights_of-append a b
          ∙ rw one (
              ap (λ l. (s.last_indexed + 1) ∷ l)
                (later.heights ∙ ap (λ n. count_up n later.processed_count) (omega arith)));
      last = later.last ∙ omega arith;
      durable = λ h. later.durable (rw (kept, up));
      tip = later.tip ∙ rw step.tip (sym (last_commit-append s.forkchoice a b));
    }
  ]

  -- While the heights fit a u64, whatever the syncer, the execution client and the waiters answer,
  -- a run processes the heights that follow the last one, each once and in order; its last height
  -- is the last one that it processed; if the stored height was the last one it is so again; and
  -- the shared forkchoice is the last one that was sent to the execution client.
  pub run_in_order :
      (answers : List (Answers x)) (s : Finalizer)
      → s.last_indexed + length answers < 2 ^ 64
      → IsRun s (run x answers s).0 (run x answers s).1
  unfolding run heights_of last_commit
  run_in_order [] s range = record {
    processed_count = 0;
    heights = refl;
    last = omega arith;
    durable = λ h. h;
    tip = refl;
  }
  run_in_order (a ∷ rest) s range =
      let step = turn-IsStep a s (omega arith) in
      IsRun-cons s (turn x a s).0 (run x rest (turn x a s).0).0 (turn x a s).1
        (run x rest (turn x a s).0).1 step
        (run_in_order rest (turn x a s).0 (let bound = IsStep-le s _ _ step in omega arith))

  -- A finalizer that is started again over the stored metadata goes on at the height at which a
  -- run from the start of the node left off, whatever was answered in the run, while the heights
  -- fit a u64.
  pub restart_resumes :
      (answers : List (Answers x)) (stored : Option ℕ) (f g : Forkchoice)
      → unwrap_or stored 0 + length answers < 2 ^ 64
      → (new (run x answers (new stored f)).0.durable g).last_indexed
        ≡ (run x answers (new stored f)).0.last_indexed
  unfolding new
  restart_resumes answers stored f g range =
      (run_in_order answers (unfold new in new stored f) range).durable refl
