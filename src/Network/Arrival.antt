-- ===== src/Network/Arrival.antt =====
-- From NetSender to NetReceiver (network/src/lib.rs): bincode and the connection are parameters, the
-- connection by what comes out of it.
use gnosis.Prelude.Map.{lookup}
use gnosis.Config.{SocketAddr}
use gnosis.Prelude.{
  List, [], ℕ, Option, ◌≡◌, map, some, true, take, suc, ◌++◌, ◌∷◌, ◌∙◌, Bool-cases, ap,
  if◌then◌else◌, refl, zero, ◌==◌, inl, inr,
}
use gnosis.Network.{Event, net_message, worker_writes, worker_returns, Bytes, new_sender, handed}
use gnosis.Network
use gnosis.Prelude.{nat_eq}
use gnosis.Network.Order.{requested, copies, all_accept, run-handed}
use gnosis.Network.Receiver.{Receiver, NetEvent, receive_all, running}
use gnosis.Network.Delivered.{delivered_on, arrivals, readable, receive_all-readable}

-- bincode: what `serialize` makes is read back.
pub record Bincode (Message : Type 0) : Type 0 where
  pub serialize : Message → Bytes
  pub deserialize : Bytes → Option Message
  pub deserialize-serialize : (m : Message) → deserialize (serialize m) ≡ some m

-- A message for the sender, or what a worker does.
pub data Action (Message : Type 0) : Type 0 where
  send : Message → List SocketAddr → Action Message
  writes returns : SocketAddr → Action Message

-- The messages for an address, once for each time that it stands among the receivers.
unfoldable pub addressed : {Message : Type 0} → SocketAddr → List (Action Message) → List Message
addressed a [] = []
addressed a (send m [] ∷ actions) = addressed a actions
addressed a (send m (x ∷ addresses) ∷ actions) =
    let rest = addressed a (send m addresses ∷ actions) in if x == a then m ∷ rest else rest
addressed a (_ ∷ actions) = addressed a actions

module _ {Message : Type 0} (bincode : Bincode Message) where
  open bincode use {serialize, deserialize, deserialize-serialize}

  unfoldable pub event_of : Action Message → Event
  event_of (send m addresses) = net_message (serialize m) addresses []
  event_of (writes a) = worker_writes a
  event_of (returns a) = worker_returns a

  requested-event_of :
      (a : SocketAddr) (actions : List (Action Message))
      → requested a (map event_of actions) ≡ map serialize (addressed a actions)
  unfolding requested copies event_of addressed
  requested-event_of a [] = refl
  requested-event_of a (send m [] ∷ actions) = requested-event_of a actions
  requested-event_of a (send m (x ∷ addresses) ∷ actions) =
      let rest = requested-event_of a (send m addresses ∷ actions) in
      elim (Bool-cases (x == a)) [
        | inl same ↦ rw same (ap (λ l. serialize m ∷ l) rest)
        | inr other ↦ rw other rest
      ]
  requested-event_of a (writes x ∷ actions) = requested-event_of a actions
  requested-event_of a (returns x ∷ actions) = requested-event_of a actions

  all_accept-event_of : (actions : List (Action Message)) → all_accept (map event_of actions) ≡ true
  unfolding all_accept event_of
  all_accept-event_of [] = refl
  all_accept-event_of (send m addresses ∷ actions) = all_accept-event_of actions
  all_accept-event_of (writes x ∷ actions) = all_accept-event_of actions
  all_accept-event_of (returns x ∷ actions) = all_accept-event_of actions

  readable-serialize :
      (k : ℕ) (ms : List Message)
      → readable deserialize (map some (take k (map serialize ms))) ≡ take k ms
  unfolding readable
  readable-serialize zero ms = refl
  readable-serialize (suc k) [] = refl
  readable-serialize (suc k) (m ∷ ms) =
      rw (deserialize-serialize m, readable) (ap (λ l. m ∷ l) (readable-serialize k ms))

  -- If what comes out of a connection is the first k frames that the workers of an address were
  -- handed, then the receiver at the other end delivers on it just the first k messages that were
  -- for the address, in the order in which they were sent, and none twice; whatever other
  -- connections do, and whenever workers write or return. No new worker of the sender may return
  -- before it is handed its first message, and bincode must read back what it makes.
  pub receive_all-addressed :
      (a i k : ℕ) (actions : List (Action Message)) (events : List NetEvent) (st : Receiver Message)
      → running i st.workers ≡ true
      → arrivals i events
        ≡ map some (take k (handed a (Network.run (map event_of actions) new_sender)))
      → delivered_on i (receive_all deserialize events st).delivered
        ≡ delivered_on i st.delivered ++ take k (addressed a actions)
  unfolding requested lookup
  receive_all-addressed a i k actions events st open' wire =
      let sent =
        run-handed a (map event_of actions) new_sender (all_accept-event_of actions)
        ∙ requested-event_of a actions in
      receive_all-readable deserialize i events st open'
      ∙ ap (λ l. delivered_on i st.delivered ++ l)
          (ap (readable deserialize) (wire ∙ ap (λ l. map some (take k l)) sent)
            ∙ readable-serialize k (addressed a actions))
