-- ===== src/Node/Engine/Knows.antt =====
-- A node that starts is a participant of its own consensus engine.
use sahya_net.Prelude.{
  ℕ, zero, suc, ◌^◌, ◌<◌, ◌≡◌, ◌↔◌, sym, ap, ◌∙◌, Bool, true, some, List, length, get_elem?,
}
use mathlib.Core.List.{Memᴰ}
use sahya_net.Prelude.Maps.{Eq}
use sahya_net.Syncer.Registry
use sahya_net.Syncer.Registry.Fresh.{IsDistinct, new_lem}
use sahya_net.Node.Host.{Host, done}
use sahya_net.Node.Committee.{Entry, peers_of}
use sahya_net.Node.Startup.{Flags, Runtime, Started, run_node}
use sahya_net.Node.Startup.Member.{run_node-IsMember}
use sahya_net.Node.Engine.{new}
use Prim.Native.String.{String}

module _ (h : Host) where
  -- A member of a list stands at some index.
  Memᴰ-index :
      (v : Entry h) {l : List (Entry h)}
      → Memᴰ v l
      → (i : ℕ) × (get_elem? l i ≡ some v) × (get_elem? (peers_of h l) i ≡ some v.0)
  unfolding peers_of
  Memᴰ-index v (Memᴰ.head same) = (zero, ap some (sym same), ap (λ w. some w.0) (sym same))
  Memᴰ-index v (Memᴰ.tail m) = (let (i, a, b) = Memᴰ-index v m in (suc i, a, b))

module _ (h : Host) {I : Type 0}
    (key_eq_iff : (a b : h.Key) → (h.formats.key_eq a b ≡ true) ↔ (a ≡ b)) (public : h.Poly → I)
    (evaluate_all : h.Poly → ℕ → List I) where
  abbrev pub keys : Eq h.Key
  keys = record { eq = h.formats.key_eq; eq_iff = key_eq_iff }

  -- A node that starts from the command line finds its own key among the participants of its consensus
  -- engine, under the index at which the committee has that key with the address that the node
  -- tells its peers, if no key is twice in the committee and a u32 counts it.
  pub run_node-knows_itself :
      (is_level : String → Bool) (flags : Flags) (s : h.files.Store) (rt : Runtime) (st : Started h)
      → run_node h is_level flags s ≡ done (rt, st)
      → IsDistinct keys (peers_of h st.peer_set.1)
      → length (peers_of h st.peer_set.1) < 2 ^ 32
      → (i : ℕ) × (Registry.is_participant keys
            (h.public_key (new h keys public evaluate_all st.engine).simplex.crypto)
            (new h keys public evaluate_all st.engine).simplex.supervisor
          ≡ some i)
        × (get_elem? st.peer_set.1 i ≡ some (h.public_key st.engine.signer, st.network.dialable))
  unfolding new Registry.is_participant Registry.peers
  run_node-knows_itself is_level flags s rt st started distinct room =
      let m = run_node-IsMember h is_level flags s rt st started in
      let own : m.key ≡ h.public_key st.engine.signer = (key_eq_iff _ _).0 m.key_is_own in
      let (i, at, at_peers) = Memᴰ-index h (m.key, st.network.dialable) m.in_committee in
      let (listed, indexed) =
        new_lem keys public evaluate_all st.engine.participants st.engine.polynomial st.engine.share
          (rw m.participants distinct) (rw m.participants room) in
      (
        i,
        (indexed (h.public_key st.engine.signer) i).1
            (ap (λ l. get_elem? l i) (listed ∙ m.participants) ∙ at_peers ∙ ap some own),
        at ∙ ap (λ k. some (k, st.network.dialable)) own,
      )
