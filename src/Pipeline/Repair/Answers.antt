-- ===== src/Pipeline/Repair/Answers.antt =====
-- How a repair answers the finalizer (syncer/src/actor.rs), read off the effects of its turn.
use sahya_net.Prelude.{ℕ, ◌+◌, min, ◌-◌, ◌%◌, ◌^◌, ◌≡◌, refl, false, some, List, [], ◌∷◌, ◌++◌}
use sahya_net.Syncer.Environment.{Environment}
use sahya_net.Syncer.Key.{MultiIndex}
use sahya_net.Syncer.State.{State, Effect, fetch, respond_bool, Turn}
use sahya_net.Syncer.Orchestrate.{fetch_heights, enqueue, request_range}
use sahya_net.Syncer.Actor.{cancel_views}
use sahya_net.Pipeline.{repair_answer}

module _ (e : Environment) where
  pub repair_answer-append :
      (views : List ℕ) (l : List (Effect e))
      → repair_answer e (cancel_views e views ++ l) ≡ repair_answer e l
  unfolding repair_answer
  repair_answer-append [] l = refl
  repair_answer-append (v ∷ views) l = repair_answer-append views l

  repair_answer-fetch_heights :
      (heights : List ℕ) (l : List (Effect e))
      → repair_answer e (fetch_heights e heights l) ≡ repair_answer e l
  unfolding repair_answer
  repair_answer-fetch_heights [] l = refl
  repair_answer-fetch_heights (h ∷ heights) l = repair_answer-fetch_heights heights l

  pub enqueue-false :
      (next g : ℕ) (s : State e) → repair_answer e (enqueue e next g s).1 ≡ some false
  unfolding enqueue repair_answer
  enqueue-false next g s =
      let asked = request_range (min g ((next + 20) % 2 ^ 64) - next) next s.requested_blocks in
      repair_answer-fetch_heights asked.1 (respond_bool false ∷ [])

  pub fetch-answer :
      (k : MultiIndex) (l : List (Effect e)) → repair_answer e (fetch k ∷ l) ≡ repair_answer e l
  unfolding repair_answer
  fetch-answer k l = refl

  -- What a turn answers is read off its effects.
  pub same_answer :
      {s s' : State e} {l effects : List (Effect e)}
      → ◌≡◌ {A = Turn e} (some (s, l)) (some (s', effects))
      → repair_answer e effects ≡ repair_answer e l
  same_answer h = cc

  pub same_state :
      {s s' : State e} {l effects : List (Effect e)}
      → ◌≡◌ {A = Turn e} (some (s, l)) (some (s', effects))
      → s' ≡ s
  same_state h = cc
