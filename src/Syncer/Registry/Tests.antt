-- ===== src/Syncer/Registry/Tests.antt =====
-- A registry with the participants 4 and 5.
use sahya_net.Prelude.{ℕ, ◌≡◌, refl, ◌++◌, some, [], ◌∷◌, arith}
use sahya_net.Prelude.Maps
use sahya_net.Syncer.Registry.{
  Participants, no_participants, Registry, ok, view_eq, latest, with_participant, add_participant,
  remove_participant, new, peers, is_participant, swap_remove,
}
use sahya_net.Syncer.Registry.Index.{IsIndexed, with_participant-IsIndexed}
use sahya_net.Syncer.Registry.Fresh.{new_lem, last_index}
use sahya_net.Syncer.Registry.Views.{IsNext, add_participant_lem, remove_participant_lem}

abbrev two : Participants ℕ
two = record { participants = 4 ∷ 5 ∷ []; participants_map = (5, 1) ∷ (4, 0) ∷ [] }

abbrev registry : Registry ℕ Unit Unit
registry = record {
  views = (1, two) ∷ [];
  latest_view = 1;
  identity = tt;
  polynomial = [];
  share = tt;
}

none-IsIndexed : IsIndexed view_eq (no_participants ℕ)
unfolding Maps.get
none-IsIndexed k i = (λ h. cc, λ h. cc)

two-IsIndexed : IsIndexed view_eq two
unfolding with_participant Maps.put Maps.remove Maps.get
two-IsIndexed =
    with_participant-IsIndexed view_eq 5 (with_participant view_eq 4 (no_participants ℕ))
      (omega arith) refl
      (with_participant-IsIndexed view_eq 4 (no_participants ℕ) (omega arith) refl none-IsIndexed)

latest-registry : latest registry ≡ two
unfolding latest Maps.get
latest-registry = refl

latest-IsIndexed : IsIndexed view_eq (latest registry)
latest-IsIndexed = rw latest-registry two-IsIndexed

add_participant_lem_example :
    (r' : Registry ℕ Unit Unit) × (add_participant view_eq 6 registry ≡ ok r')
    × IsNext view_eq registry r'
    × (peers r' ≡ peers registry ++ 6 ∷ [])
    × IsIndexed view_eq (latest r')
add_participant_lem_example =
    add_participant_lem view_eq 6 registry (rw latest-registry (omega arith)) latest-IsIndexed
      (unfold is_participant latest Maps.get in refl)

remove_participant_lem_example :
    (r' : Registry ℕ Unit Unit) × (remove_participant view_eq 4 registry ≡ ok r')
    × IsNext view_eq registry r'
    × (swap_remove 0 (peers registry) ≡ some (peers r'))
    × IsIndexed view_eq (latest r')
remove_participant_lem_example =
    remove_participant_lem view_eq 4 0 registry latest-IsIndexed
      (unfold is_participant latest Maps.get in refl)

abbrev made : Registry ℕ ℕ Unit
made = new view_eq (λ p. p) (λ p n. p ∷ []) (4 ∷ 5 ∷ []) (let p : ℕ = 9 in p) tt

new_lem_example : (peers made ≡ 4 ∷ 5 ∷ []) × IsIndexed view_eq (latest made)
unfolding last_index
new_lem_example =
    new_lem view_eq (λ p. p) (λ p n. p ∷ []) (4 ∷ 5 ∷ []) (let p : ℕ = 9 in p) tt (refl, (refl, tt))
      (omega arith)
