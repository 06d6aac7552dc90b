-- ===== src/Syncer/Registry/Index.antt =====
-- The map of a view gives every participant its index in the list of the view, as `add_participant`
-- and `remove_participant` leave it.
use sahya_net.Prelude.{
  ℕ, ◌+◌, ◌-◌, ◌%◌, ◌^◌, ◌<◌, ◌≡◌, ◌↔◌, inl, inr, none, some, List, [], ◌∷◌, ◌++◌, length,
  length-append, get_elem?, arith, Option-cases,
}
use sahya_net.Prelude.Maps
use sahya_net.Prelude.Maps.{Eq, get-put, get-remove}
use sahya_net.Syncer.Registry.{Participants, with_participant, without_participant, swap_remove}
use sahya_net.Syncer.Registry.Swap.{
  get_elem?-push, get_elem?-none, get_elem?-within, get_elem?-swap_remove,
}

module _ {K : Type 0} (e : Eq K) where
  abbrev pub IsIndexed : Participants K → Type 0
  IsIndexed p =
      (k : K) (i : ℕ)
      → (Maps.get e k p.participants_map ≡ some i) ↔ (get_elem? p.participants i ≡ some k)

  -- Adding an absent participant, while a u32 can count them, keeps every index and gives the new one
  -- the last.
  pub with_participant-IsIndexed :
      (pk : K) (p : Participants K)
      → length p.participants + 1 < 2 ^ 32
      → Maps.get e pk p.participants_map ≡ none
      → IsIndexed p
      → IsIndexed (with_participant e pk p)
  unfolding with_participant
  with_participant-IsIndexed pk p room absent h k i =
      let size = length-append p.participants (pk ∷ []) in
      let small : length (p.participants ++ pk ∷ []) % 2 ^ 32 - 1 ≡ length p.participants =
        omega arith in
      rw
        (
          small,
          get-put e pk k (length p.participants) p.participants_map,
          get_elem?-push p.participants pk i,
        )
        (ground (arith, h k i, h pk i, e.eq_iff pk k, absent, get_elem?-none p.participants i))

  -- Removing a participant that the map knows does not panic and keeps the property: the last
  -- participant takes the removed one's place and index, and all others keep theirs.
  pub without_participant-IsIndexed :
      (pk : K) (index : ℕ) (p : Participants K)
      → Maps.get e pk p.participants_map ≡ some index
      → IsIndexed p
      → (left : List K) × (swap_remove index p.participants ≡ some left)
        × IsIndexed (without_participant e pk index left p.participants_map)
  unfolding without_participant
  without_participant-IsIndexed pk index p known h =
      let (left, removed, at) =
        get_elem?-swap_remove p.participants index pk ((h pk index).0 known) in
      (
        left,
        removed,
        λ k i. elim (Option-cases (get_elem? left index)) [
          | inl end ↦
              rw (end, get-remove e pk k p.participants_map)
                (ground (
                  arith,
                  at i,
                  at index,
                  known,
                  h k i,
                  h pk i,
                  h pk index,
                  h k index,
                  e.eq_iff pk k,
                  get_elem?-none p.participants i,
                  get_elem?-none p.participants index,
                  get_elem?-within p.participants (length p.participants - 1),
                ))
          | inr (last, swapped) ↦
              rw
                (
                  swapped,
                  get-put e last k index (Maps.remove e pk p.participants_map),
                  get-remove e pk k p.participants_map,
                )
                (ground (
                  arith,
                  at i,
                  at index,
                  known,
                  h pk index,
                  h pk (length p.participants - 1),
                  h k i,
                  h pk i,
                  h k index,
                  h last i,
                  h last (length p.participants - 1),
                  e.eq_iff pk k,
                  e.eq_iff last k,
                  get_elem?-none p.participants i,
                ))
        ],
      )
