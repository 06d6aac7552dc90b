-- ===== src/Syncer/Registry/Views.antt =====
-- How `add_participant` and `remove_participant` make a new view from the latest one, and who leads.
use sahya_net.Prelude.{
  ℕ, ◌+◌, ◌%◌, ◌^◌, ◌<◌, ◌≡◌, refl, sym, ap, ◌∙◌, inl, inr, false, none, some, List, [], ◌∷◌, ◌++◌,
  length, get_elem?, ◌==◌, ==_refl, arith, Option-cases,
}
use sahya_net.Prelude.Maps
use sahya_net.Prelude.Maps.{Eq, get-put}
use sahya_net.Syncer.Registry.{
  Participants, Registry, ok, view_eq, latest, publish, with_participant, without_participant,
  add_if, add_participant, remove_if, remove_swapped, remove_participant, peers, leader, leader_at,
  is_participant, swap_remove,
}
use sahya_net.Syncer.Registry.Index.{
  IsIndexed, with_participant-IsIndexed, without_participant-IsIndexed,
}
use sahya_net.Syncer.Registry.Swap.{get_elem?-within}

participants-with_participant :
    {K : Type 0} (e : Eq K) (pk : K) (p : Participants K)
    → (with_participant e pk p).participants ≡ p.participants ++ pk ∷ []
unfolding with_participant
participants-with_participant e pk p = refl

mod_lt : (a n : ℕ) → 0 < n → a % n < n
mod_lt a n h = omega arith

leader_at-eq :
    {K : Type 0} (view : ℕ) (l : List K)
    → 0 < length l
    → leader_at view l ≡ get_elem? l (view % length l)
leader_at-eq view [] h = absurd (omega arith)
leader_at-eq view (k ∷ l) h = refl

module _ {K I S : Type 0} (e : Eq K) where
  -- The latest view is the next one, and what stood at any other view still stands there.
  pub record IsNext (r r' : Registry K I S) : Type 0 where
    pub advanced : r'.latest_view ≡ (r.latest_view + 1) % 2 ^ 64
    pub kept :
        (v : ℕ)
        → (r'.latest_view == v) ≡ false
        → Maps.get view_eq v r'.views ≡ Maps.get view_eq v r.views

  latest-publish : (p : Participants K) (r : Registry K I S) → latest (publish p r) ≡ p
  unfolding latest publish
  latest-publish p r =
      let v = (r.latest_view + 1) % 2 ^ 64 in rw (get-put view_eq v v p r.views, ==_refl v)

  peers-publish : (p : Participants K) (r : Registry K I S) → peers (publish p r) ≡ p.participants
  unfolding peers
  peers-publish p r = ap (λ q. q.participants) (latest-publish p r)

  publish-IsNext : (p : Participants K) (r : Registry K I S) → IsNext r (publish p r)
  unfolding publish
  publish-IsNext p r = record {
    advanced = refl;
    kept = λ v other. get-put view_eq ((r.latest_view + 1) % 2 ^ 64) v p r.views ∙ rw other;
  }

  -- Adding a participant that the latest view does not have succeeds: the next view is the latest one
  -- with the participant at its end, its map gives every participant its index, and no other view
  -- changes. The map of the latest view must do so before, and a u32 must count the participants.
  pub add_participant_lem :
      (pk : K) (r : Registry K I S)
      → length (latest r).participants + 1 < 2 ^ 32
      → IsIndexed e (latest r)
      → is_participant e pk r ≡ none
      → (r' : Registry K I S) × (add_participant e pk r ≡ ok r')
        × IsNext r r'
        × (peers r' ≡ peers r ++ pk ∷ [])
        × IsIndexed e (latest r')
  unfolding add_participant is_participant peers add_if
  add_participant_lem pk r room h absent =
      let p = with_participant e pk (latest r) in
      (
        publish p r,
        rw absent refl,
        publish-IsNext p r,
        peers-publish p r ∙ participants-with_participant e pk (latest r),
        rw (latest-publish p r) (with_participant-IsIndexed e pk (latest r) room absent h),
      )

  -- Removing a participant of the latest view succeeds: in the next view the last participant has the
  -- place of the removed one and all others keep theirs, its map gives every participant its index,
  -- and no other view changes. The map of the latest view must do so before.
  pub remove_participant_lem :
      (pk : K) (index : ℕ) (r : Registry K I S)
      → IsIndexed e (latest r)
      → is_participant e pk r ≡ some index
      → (r' : Registry K I S) × (remove_participant e pk r ≡ ok r')
        × IsNext r r'
        × (swap_remove index (peers r) ≡ some (peers r'))
        × IsIndexed e (latest r')
  unfolding remove_participant is_participant peers remove_if remove_swapped without_participant
  remove_participant_lem pk index r h known =
      let (left, removed, indexed) = without_participant-IsIndexed e pk index (latest r) known h in
      let p = without_participant e pk index left (latest r).participants_map in
      (
        publish p r,
        rw (known, removed) refl,
        publish-IsNext p r,
        removed ∙ ap some (sym (peers-publish p r)),
        rw (latest-publish p r) indexed,
      )

  -- If there are participants and the map of the latest view gives each its index, every view has
  -- a leader, which is the participant whose index is the view modulo their number.
  pub leader_lem :
      (view : ℕ) (r : Registry K I S)
      → 0 < length (peers r)
      → IsIndexed e (latest r)
      → (k : K) × (leader view r ≡ some k) × (is_participant e k r ≡ some (view % length (peers r)))
  unfolding leader is_participant peers
  leader_lem view r some_peer h =
      let all = (latest r).participants in
      let i = view % length all in
      elim (Option-cases (get_elem? all i)) [
        | inl out ↦
            absurd (omega (arith, get_elem?-within all i out, mod_lt view (length all) some_peer))
        | inr (k, found) ↦ (k, leader_at-eq view all some_peer ∙ found, (h k i).1 found)
      ]
