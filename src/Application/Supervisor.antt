-- ===== src/Application/Supervisor.antt =====
-- application/src/supervisor.rs: a fixed list of participants, with the queries of the registry. `none`
-- is a panic where it says so.
pub mod Agrees
mod Tests
use sahya_net.Prelude.{
  ℕ, suc, ◌%◌, ◌^◌, ◌≡◌, Option, none, some, List, [], ◌∷◌, Bytes, length, get_elem?,
}
use sahya_net.Prelude.Maps
use sahya_net.Prelude.Maps.{Eq}

pub record Supervisor (K I S : Type 0) : Type 0 where
  pub identity : I
  pub polynomial : List I
  pub participants : List K
  pub participants_map : List (K × ℕ)
  pub share : S

module _ {K : Type 0} (e : Eq K) where
  -- `for (index, validator) in participants.iter().enumerate()`, from an index on.
  unfoldable pub insert_all : ℕ → List K → List (K × ℕ) → List (K × ℕ)
  insert_all index [] m = m
  insert_all index (validator ∷ rest) m =
      insert_all (suc index) rest (Maps.put e validator (index % 2 ^ 32) m)

  -- `poly::public` and `evaluate_all` of commonware_cryptography are the arguments.
  unfoldable pub new :
      {P I S : Type 0} → (P → I) → (P → ℕ → List I) → List K → P → S → Supervisor K I S
  unfolding insert_all
  new public evaluate_all participants polynomial share = record {
    identity = public polynomial;
    polynomial = evaluate_all polynomial (length participants % 2 ^ 32);
    participants = participants;
    participants_map = insert_all 0 participants [];
    share = share;
  }

  unfoldable pub is_participant : {I S : Type 0} → K → Supervisor K I S → Option ℕ
  is_participant candidate s = Maps.get e candidate s.participants_map

-- `Supervisor::participants`, for any view.
abbrev pub participants_of : {K I S : Type 0} → Supervisor K I S → Option (List K)
participants_of s = some s.participants

-- `ThresholdSupervisor::leader`, by the `modulo` of commonware_utils; `none` is the panic of an index
-- that is out of range. The leader without a seed is `unimplemented!`.
unfoldable pub threshold_leader :
    {K I S : Type 0} → (Bytes → ℕ → ℕ) → Bytes → Supervisor K I S → Option K
threshold_leader modulo seed s = get_elem? s.participants (modulo seed (length s.participants))
