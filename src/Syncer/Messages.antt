-- ===== src/Syncer/Messages.antt =====
-- syncer/src/ingress.rs and syncer/src/handler.rs: what reaches the syncer, and what each sender puts
-- into its channel. A response channel belongs to its message and has no name in the model: an
-- answer is an effect of the handling of that message.
use sahya_net.Prelude.{ℕ, Option, List, [], ◌∷◌, Bytes}
use sahya_net.Types.Digest.{Digest}
use sahya_net.Types.Block.{Block}
use sahya_net.Syncer.Environment.{Environment}
use sahya_net.Syncer.Key.{MultiIndex}

-- `ingress::Message`
pub data Message (e : Environment) : Type 0 where
  get : Option ℕ → Digest → Message e
  broadcast : Block e.prim → Message e
  store_verified : ℕ → Block e.prim → Message e
  finalize : e.Finalization → Message e
  notarize : e.Notarization → Message e

-- `ingress::Orchestration`, sent by the finalizer.
pub data Orchestration : Type 0 where
  get_next : ℕ → Orchestration
  processed : ℕ → Digest → Orchestration
  repair : ℕ → Orchestration

-- `handler::Message`, sent by the resolver.
pub data HandlerMessage : Type 0 where
  deliver : MultiIndex → Bytes → HandlerMessage
  produce : MultiIndex → HandlerMessage

-- `Mailbox::get`, `broadcast` and `store_verified`: the message that each sends.
abbrev pub mailbox_get : {e : Environment} → Option ℕ → Digest → Message e
mailbox_get view payload = get view payload

abbrev pub mailbox_broadcast : {e : Environment} → Block e.prim → Message e
mailbox_broadcast payload = broadcast payload

abbrev pub mailbox_store_verified : {e : Environment} → ℕ → Block e.prim → Message e
mailbox_store_verified view payload = store_verified view payload

-- `Consumer::deliver` and `Producer::produce` of the resolver's `Handler`, and `failed`, which sends
-- nothing.
abbrev pub handler_deliver : MultiIndex → Bytes → HandlerMessage
handler_deliver key value = deliver key value

abbrev pub handler_produce : MultiIndex → HandlerMessage
handler_produce key = produce key

abbrev pub handler_failed : MultiIndex → List HandlerMessage
handler_failed key = []

-- What the consensus engine reports. The views are what the debug log shows of the other activities.
pub data Activity (e : Environment) : Type 0 where
  notarize_vote : ℕ → Activity e
  notarization : e.Notarization → Activity e
  nullify : ℕ → Activity e
  nullification : ℕ → Activity e
  finalize_vote : ℕ → Activity e
  finalization : e.Finalization → Activity e
  conflicting_notarize : ℕ → Activity e
  conflicting_finalize : ℕ → Activity e
  nullify_finalize : ℕ → Activity e

-- `Reporter::report`: the messages that an activity is turned into.
pub report : (e : Environment) → Activity e → List (Message e)
report e (notarize_vote v) = []
report e (notarization n) = notarize n ∷ []
report e (nullify v) = []
report e (nullification v) = []
report e (finalize_vote v) = []
report e (finalization f) = finalize f ∷ []
report e (conflicting_notarize v) = []
report e (conflicting_finalize v) = []
report e (nullify_finalize v) = []
