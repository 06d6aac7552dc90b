-- ===== src/Node/Launch/Wired.antt =====
-- Each actor of a started node works on the channel that was registered for it.
use mathlib.Core.Path.{subst}
use sahya_net.Prelude.{ℕ, ◌≡◌, refl, some, List, [], ◌∷◌, Bool}
use sahya_net.Node.Host.{Host, done}
use sahya_net.Node.Startup.{Flags, Runtime, Started, Prepared, Channel, run_node, start}
use sahya_net.Node.Startup.Member.{run_node-starts}
use sahya_net.Node.Engine.{new}
use sahya_net.Prelude.Maps.{Eq}
use sahya_net.Node.Launch.{application, buffer, syncer, simplex, start_engine}
use Prim.Native.String.{String}

module _ (h : Host) {I : Type 0} (e : Eq h.Key) (public : h.Poly → I)
    (evaluate_all : h.Poly → ℕ → List I) where
  -- The consensus engine has the first three channels, the buffer the fourth, and the syncer the
  -- fifth, which lets through what the syncer requests.
  record IsWired (st : Started h) : Type 0 where
    pub pending : Channel
    pub recovered : Channel
    pub resolver : Channel
    pub broadcast : Channel
    pub backfill : Channel
    pub tasks :
        start_engine st.channels
        ≡ some (
            application 1
            ∷ buffer broadcast
            ∷ syncer backfill 1
            ∷ simplex pending recovered resolver
            ∷ [])
    pub ids :
        pending.id ∷ recovered.id ∷ resolver.id ∷ broadcast.id ∷ backfill.id ∷ []
        ≡ 0 ∷ 1 ∷ 2 ∷ 3 ∷ 4 ∷ []
    pub same_quota : backfill.quota ≡ (new h e public evaluate_all st.engine).syncer.backfill_quota

  start-IsWired : (flags : Flags) (p : Prepared h) → IsWired (start h flags p)
  unfolding start new
  start-IsWired flags p = record {
    pending = _;
    recovered = _;
    resolver = _;
    broadcast = _;
    backfill = _;
    tasks = refl;
    ids = refl;
    same_quota = refl;
  }

  -- Every started node is wired so.
  run_node-IsWired :
      (is_level : String → Bool) (flags : Flags) (s : h.files.Store) (rt : Runtime) (st : Started h)
      → run_node h is_level flags s ≡ done (rt, st)
      → IsWired st
  run_node-IsWired is_level flags s rt st started =
      let (p, same) = run_node-starts h is_level flags s rt st started in
      subst IsWired same (start-IsWired flags p)
