-- ===== src/Syncer/Agreement/Loop.antt =====
-- A turn of the syncer stores and fetches final blocks only, and so does a restart.
use sahya_net.Prelude.{ℕ, ◌≡◌, none, some, List, [], ◌∷◌, ◌++◌, All}
use sahya_net.Syncer.Environment.{Environment, EnvironmentLaws}
use sahya_net.Syncer.Key.{MultiIndex}
use sahya_net.Syncer.State.{
  State, Effect, fetch, cancel, buffer_broadcast, subscribe_prepared, notify_finalizer,
  respond_block, respond_found, respond_bool, respond_bytes, Turn, Buffer, ◌>>=◌,
}
use sahya_net.Syncer.Actor.{
  Input, mailbox, orchestrator, handler, cancel_views, cancel_useless, on_input, turn,
}
use sahya_net.Syncer.Coherence.{IsCoherent, Ensures-some}
use sahya_net.Syncer.Coherence.Loop.{turn-IsCoherent, cancel_useless-IsCoherent}
use sahya_net.Syncer.Opening.{Storage, new}
use sahya_net.Syncer.Opening.Restart.{IsLeft, new-IsCoherent, new-IsReopened}
use sahya_net.Syncer.Agreement.{
  Network, OnlyFinal, FetchesFinal, IsFinalKey, Ends, Arrives, IsSound, fetched,
}
use sahya_net.Syncer.Agreement.Consensus.{on_message-Ends}
use sahya_net.Syncer.Agreement.Orchestrate.{on_orchestration-Ends}
use sahya_net.Syncer.Agreement.Resolve.{on_handler-Ends}
use Prim.Native.String.{String}

module _ {e : Environment} (laws : EnvironmentLaws e) (net : Network e) where
  on_input-Ends :
      (buffer : Buffer e) (input : Input e) (s : State e) (keys : List MultiIndex)
      → IsSound e buffer
      → Arrives keys input
      → All (IsFinalKey net) keys
      → IsCoherent e s
      → OnlyFinal net s
      → Ends net (on_input e buffer input s)
  unfolding on_input
  on_input-Ends buffer (mailbox m) s keys sound arrives finals coherent c =
      on_message-Ends laws net buffer m s keys sound arrives c
  on_input-Ends buffer (orchestrator o) s keys sound arrives finals coherent c =
      on_orchestration-Ends laws net o s coherent c
  on_input-Ends buffer (handler h) s keys sound arrives finals coherent c =
      on_handler-Ends laws net buffer h s keys arrives finals c

  cancel_views-fetches :
      (views : List ℕ) (l : List (Effect e))
      → All (FetchesFinal net) l
      → All (FetchesFinal net) (cancel_views e views ++ l)
  cancel_views-fetches [] l h = h
  cancel_views-fetches (view ∷ views) l h = (tt, cancel_views-fetches views l h)

  Ends-map :
      (views : List ℕ) (t : Turn e)
      → Ends net t
      → Ends net (t >>= λ r. some (r.0, cancel_views e views ++ r.1))
  Ends-map views none h = tt
  Ends-map views (some (s, effects)) h = (h.0, cancel_views-fetches views effects h.1)

  turn-Ends :
      (buffer : Buffer e) (input : Input e) (s : State e) (keys : List MultiIndex)
      → IsSound e buffer
      → Arrives keys input
      → All (IsFinalKey net) keys
      → IsCoherent e s
      → OnlyFinal net s
      → Ends net (turn e buffer input s)
  unfolding turn cancel_useless
  turn-Ends buffer input s keys sound arrives finals coherent c =
      Ends-map _ (on_input e buffer input (cancel_useless e s).0) (
        on_input-Ends buffer input (cancel_useless e s).0 keys sound arrives finals
          (cancel_useless-IsCoherent e laws s coherent)
          (record { verified = c.verified; notarized = c.notarized; blocks = c.blocks }))

  fetched-final :
      (effects : List (Effect e)) (keys : List MultiIndex)
      → All (FetchesFinal net) effects
      → All (IsFinalKey net) keys
      → All (IsFinalKey net) (fetched effects ++ keys)
  unfolding fetched
  fetched-final [] keys h k = k
  fetched-final (fetch key ∷ rest) keys h k = (h.0, fetched-final rest keys h.1 k)
  fetched-final (cancel key ∷ rest) keys h k = fetched-final rest keys h.1 k
  fetched-final (buffer_broadcast b ∷ rest) keys h k = fetched-final rest keys h.1 k
  fetched-final (subscribe_prepared d ∷ rest) keys h k = fetched-final rest keys h.1 k
  fetched-final (notify_finalizer ∷ rest) keys h k = fetched-final rest keys h.1 k
  fetched-final (respond_block b ∷ rest) keys h k = fetched-final rest keys h.1 k
  fetched-final (respond_found o ∷ rest) keys h k = fetched-final rest keys h.1 k
  fetched-final (respond_bool b ∷ rest) keys h k = fetched-final rest keys h.1 k
  fetched-final (respond_bytes bs ∷ rest) keys h k = fetched-final rest keys h.1 k

  -- What holds of a node and of the keys that it has fetched.
  pub record IsGuarded (s : State e) (keys : List MultiIndex) : Type 0 where
    pub coherent : IsCoherent e s
    pub only_final : OnlyFinal net s
    pub keys_final : All (IsFinalKey net) keys

  Ends-some :
      (t : Turn e) {s : State e} {effects : List (Effect e)}
      → t ≡ some (s, effects)
      → Ends net t
      → OnlyFinal net s × All (FetchesFinal net) effects
  Ends-some t h p = rw h at p

  pub turn-IsGuarded :
      (buffer : Buffer e) (input : Input e) (s : State e) (keys : List MultiIndex) {s' : State e}
      {effects : List (Effect e)}
      → IsSound e buffer
      → Arrives keys input
      → turn e buffer input s ≡ some (s', effects)
      → IsGuarded s keys
      → IsGuarded s' (fetched effects ++ keys)
  turn-IsGuarded buffer input s keys {s'} {effects} sound arrives ok g =
      let (final, fetches) =
        Ends-some (turn e buffer input s) ok
          (turn-Ends buffer input s keys sound arrives g.keys_final g.coherent g.only_final) in
      record {
        coherent =
            Ensures-some e (IsCoherent e) (turn e buffer input s) ok
              (turn-IsCoherent e laws buffer input s sound.is_buffer g.coherent);
        only_final = final;
        keys_final = fetched-final effects keys fetches g.keys_final;
      }

  pub new-IsGuarded :
      (d : Storage e) (prefix : String) (s s' : State e) (keys : List MultiIndex) (disk : d.Disk)
      → IsGuarded s keys
      → IsLeft d prefix s disk
      → new d prefix disk ≡ some s'
      → IsGuarded s' []
  new-IsGuarded d prefix s s' keys disk g left opened =
      let r = new-IsReopened d prefix s s' disk left opened in
      let c = g.only_final in
      record {
        coherent = new-IsCoherent d prefix s s' disk g.coherent left opened;
        only_final = record {
          verified = λ i k b h. c.verified i k b (r.verified i k b h);
          notarized = λ i k n h. c.notarized i k n (r.notarized i k n h);
          blocks = λ i k b h. c.blocks i k b (r.blocks i k b h);
        };
        keys_final = tt;
      }
