-- ===== src/Application/Supervisor/Tests.antt =====
-- A supervisor and a registry with the participants 4 and 5.
use sahya_net.Prelude.{ℕ, ◌≡◌, ◌%◌, [], ◌∷◌}
use sahya_net.Syncer.Registry
use sahya_net.Syncer.Registry.{Registry, view_eq}
use sahya_net.Application.Supervisor.{Supervisor, new, is_participant, threshold_leader}
use sahya_net.Application.Supervisor.Agrees.{new_agrees}

abbrev seeded : ℕ → ℕ
seeded p = p

abbrev supervisor : Supervisor ℕ ℕ Unit
supervisor = new view_eq seeded (λ p n. p ∷ []) (4 ∷ 5 ∷ []) 9 tt

abbrev registry : Registry ℕ ℕ Unit
registry = Registry.new view_eq seeded (λ p n. p ∷ []) (4 ∷ 5 ∷ []) 9 tt

new_agrees_example :
    (is_participant view_eq 5 supervisor ≡ Registry.is_participant view_eq 5 registry)
    × (threshold_leader (λ seed n. 3 % n) [] supervisor
        ≡ Registry.threshold_leader (λ seed n. 3 % n) [] registry)
new_agrees_example =
    new_agrees view_eq seeded (λ p n. p ∷ []) 4 (5 ∷ []) 9 tt (λ seed n. 3 % n) 5 []
