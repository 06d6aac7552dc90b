-- ===== src/Syncer/Registry.antt =====
-- syncer/src/registry.rs: the participants of each view. A view that is added never changes; the
-- queries read the latest one. The locks serialise the methods, which are modelled one at a time.
pub mod Index
pub mod Swap
pub mod Views
pub mod Fresh
mod Tests
use sahya_net.Prelude.{
  ℕ, zero, suc, ◌+◌, ◌-◌, ◌%◌, ◌^◌, Bool, true, false, Option, none, some, List, [], ◌∷◌, ◌++◌,
  Bytes, length, get_elem?, set, ltb, ◌==◌, if◌then◌else◌, ==_iff,
}
use sahya_net.Prelude.Maps
use sahya_net.Prelude.Maps.{Eq}

abbrev pub view_eq : Eq ℕ
view_eq = record { eq = ◌==◌; eq_iff = ==_iff }

pub record Participants (K : Type 0) : Type 0 where
  pub participants : List K
  pub participants_map : List (K × ℕ)

-- `Participants::default()`
abbrev pub no_participants : (K : Type 0) → Participants K
no_participants K = record { participants = []; participants_map = [] }

-- The keys of the threshold signature are of the types `I` and `S`.
pub record Registry (K I S : Type 0) : Type 0 where
  pub views : List (ℕ × Participants K)
  pub latest_view : ℕ
  pub identity : I
  pub polynomial : List I
  pub share : S

pub data Changed (R : Type 0) : Type 0 where
  ok : R → Changed R
  -- "already exists", "doesn't exist"
  err : Changed R
  panicked : Changed R

-- `Vec::swap_remove`: the last item takes the place of the removed one. `none` is a panic.
abbrev pub last? {ℓ} : {A : Type ℓ} → List A → Option A
last? [] = none
last? (x ∷ []) = some x
last? (x ∷ y ∷ l) = last? (y ∷ l)

abbrev pub drop_last {ℓ} : {A : Type ℓ} → List A → List A
drop_last [] = []
drop_last (x ∷ []) = []
drop_last (x ∷ y ∷ l) = x ∷ drop_last (y ∷ l)

abbrev put_last : {A : Type 0} → ℕ → List A → Option A → Option (List A)
put_last i l none = none
put_last i l (some x) = some (drop_last (set l i x))

unfoldable pub swap_remove : {A : Type 0} → ℕ → List A → Option (List A)
swap_remove i l = if ltb i (length l) then put_last i l (last? l) else none

-- The participants of the latest view, or the default.
abbrev or_default : {K : Type 0} → Option (Participants K) → Participants K
or_default {K} none = no_participants K
or_default (some p) = p

abbrev leader_at : {K : Type 0} → ℕ → List K → Option K
leader_at i [] = none
leader_at i (k ∷ l) = get_elem? (k ∷ l) (i % length (k ∷ l))

abbrev leader_of_seed : {K : Type 0} → (Bytes → ℕ → ℕ) → Bytes → List K → Option K
leader_of_seed modulo seed [] = none
leader_of_seed modulo seed (k ∷ l) = get_elem? (k ∷ l) (modulo seed (length (k ∷ l)))

module _ {K : Type 0} (e : Eq K) where
  -- `enumerate().map(|(i, pk)| (pk, i as u32)).collect()`, from an index on.
  unfoldable pub enumerate_from : ℕ → List K → List (K × ℕ) → List (K × ℕ)
  enumerate_from i [] m = m
  enumerate_from i (pk ∷ rest) m = enumerate_from (suc i) rest (Maps.put e pk (i % 2 ^ 32) m)

  unfoldable pub with_participant : K → Participants K → Participants K
  with_participant pk p =
      let all = p.participants ++ pk ∷ [] in
      record {
        participants = all;
        participants_map = Maps.put e pk (length all % 2 ^ 32 - 1) p.participants_map;
      }

  -- The item that has taken the place of the removed one gets its index.
  abbrev reindex : ℕ → Option K → List (K × ℕ) → List (K × ℕ)
  reindex index none m = m
  reindex index (some swapped_key) m = Maps.put e swapped_key index m

  unfoldable pub without_participant : K → ℕ → List K → List (K × ℕ) → Participants K
  without_participant pk index left m = record {
    participants = left;
    participants_map = reindex index (get_elem? left index) (Maps.remove e pk m);
  }

module _ {K I S : Type 0} where
  unfoldable pub latest : Registry K I S → Participants K
  latest r = or_default (Maps.get view_eq r.latest_view r.views)

  -- `latest_view.store` and `views.insert`
  unfoldable pub publish : Participants K → Registry K I S → Registry K I S
  publish p r = record r {
    latest_view = (r.latest_view + 1) % 2 ^ 64;
    views = Maps.put view_eq ((r.latest_view + 1) % 2 ^ 64) p r.views;
  }

  -- `p2p::Coordinator`
  unfoldable pub peers : Registry K I S → List K
  peers r = (latest r).participants

  pub peer_set_id : Registry K I S → ℕ
  peer_set_id r = r.latest_view

  -- `Supervisor::leader`, whose answer for a view goes by the latest participants.
  unfoldable pub leader : ℕ → Registry K I S → Option K
  leader view r = leader_at view (latest r).participants

  -- `ThresholdSupervisor::leader`; `modulo` is that of commonware_utils.
  unfoldable pub threshold_leader : (Bytes → ℕ → ℕ) → Bytes → Registry K I S → Option K
  threshold_leader modulo seed r = leader_of_seed modulo seed (latest r).participants

module _ {K I S : Type 0} (e : Eq K) where
  -- `poly::public` and `evaluate_all` of commonware_cryptography are the arguments.
  unfoldable pub new : {P : Type 0} → (P → I) → (P → ℕ → List I) → List K → P → S → Registry K I S
  new public evaluate_all participants polynomial share = record {
    views =
        Maps.put view_eq 1
          (record {
            participants = participants;
            participants_map = enumerate_from e 0 participants [];
          })
          [];
    latest_view = 1;
    identity = public polynomial;
    polynomial = evaluate_all polynomial (length participants % 2 ^ 32);
    share = share;
  }

  add_if : K → Option ℕ → Participants K → Registry K I S → Changed (Registry K I S)
  add_if pk (some i) p r = err
  add_if pk none p r = ok (publish (with_participant e pk p) r)

  unfoldable pub add_participant : K → Registry K I S → Changed (Registry K I S)
  unfolding add_if
  add_participant pk r = let p = latest r in add_if pk (Maps.get e pk p.participants_map) p r

  remove_swapped :
      K → ℕ → Option (List K) → Participants K → Registry K I S → Changed (Registry K I S)
  remove_swapped pk index none p r = panicked
  remove_swapped pk index (some left) p r =
      ok (publish (without_participant e pk index left p.participants_map) r)

  remove_if : K → Option ℕ → Participants K → Registry K I S → Changed (Registry K I S)
  unfolding remove_swapped
  remove_if pk none p r = err
  remove_if pk (some index) p r = remove_swapped pk index (swap_remove index p.participants) p r

  unfoldable pub remove_participant : K → Registry K I S → Changed (Registry K I S)
  unfolding remove_if
  remove_participant pk r = let p = latest r in remove_if pk (Maps.get e pk p.participants_map) p r

  unfoldable pub is_participant : K → Registry K I S → Option ℕ
  is_participant candidate r = Maps.get e candidate (latest r).participants_map
