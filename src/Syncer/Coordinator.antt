-- ===== src/Syncer/Coordinator.antt =====
-- syncer/src/coordinator.rs: a fixed set of peers.
use sahya_net.Prelude.{ℕ, List}

pub record Coordinator (P : Type 0) : Type 0 where
  pub participants : List P

abbrev pub new : {P : Type 0} → List P → Coordinator P
new participants = record { participants = participants }

abbrev pub peers : {P : Type 0} → Coordinator P → List P
peers c = c.participants

abbrev pub peer_set_id : {P : Type 0} → Coordinator P → ℕ
peer_set_id c = 0
