-- ===== src/Application/Supervisor/Agrees.antt =====
-- The supervisor answers as the first view of the registry does.
use sahya_net.Prelude.{ℕ, suc, ◌%◌, ◌^◌, ◌≡◌, ap, refl, List, [], ◌∷◌, Bytes}
use sahya_net.Prelude.Maps
use sahya_net.Prelude.Maps.{Eq}
use sahya_net.Syncer.Registry
use sahya_net.Application.Supervisor.{insert_all, new, is_participant, threshold_leader}

module _ {K : Type 0} (e : Eq K) where
  insert_all-eq-enumerate_from :
      (i : ℕ) (l : List K) (m : List (K × ℕ)) → insert_all e i l m ≡ Registry.enumerate_from e i l m
  unfolding insert_all Registry.enumerate_from
  insert_all-eq-enumerate_from i [] m = refl
  insert_all-eq-enumerate_from i (k ∷ l) m =
      insert_all-eq-enumerate_from (suc i) l (Maps.put e k (i % 2 ^ 32) m)

  -- Made of the same participants, polynomial and share, the supervisor and a new registry know the
  -- same participants under the same indices, and, if there are participants, have the same leader for
  -- every seed.
  pub new_agrees :
      {P I S : Type 0} (public : P → I) (evaluate_all : P → ℕ → List I) (first : K)
      (others : List K) (polynomial : P) (share : S) (modulo : Bytes → ℕ → ℕ) (candidate : K)
      (seed : Bytes)
      → (is_participant e candidate (new e public evaluate_all (first ∷ others) polynomial share)
          ≡ Registry.is_participant e candidate
              (Registry.new e public evaluate_all (first ∷ others) polynomial share))
        × (threshold_leader modulo seed
              (new e public evaluate_all (first ∷ others) polynomial share)
            ≡ Registry.threshold_leader modulo seed
                (Registry.new e public evaluate_all (first ∷ others) polynomial share))
  unfolding new is_participant threshold_leader Registry.new Registry.is_participant Registry.latest
      Registry.threshold_leader Maps.get Maps.put Maps.remove
  new_agrees public evaluate_all first others polynomial share modulo candidate seed =
      (ap (Maps.get e candidate) (insert_all-eq-enumerate_from 0 (first ∷ others) []), refl)
