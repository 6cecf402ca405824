-- ===== src/Network/Receiver.antt =====
-- NetReceiver of network/src/lib.rs, and the front end of the mempool, mempool/src/front.rs, which
-- differs from it in that it decodes nothing. Connections are numbered as they are accepted, and
-- what they do is a list of events. bincode is a parameter; the receiver of `deliver` is there.
use gnosis.Prelude.{
  ℕ, List, [], Option, none, Bool, some, ◌∷◌, ◌++◌, false, true, suc, if◌then◌else◌, zero,
}
use gnosis.Network.{Bytes}

pub data NetEvent : Type 0 where
  accepted accept_failed : NetEvent
  -- The next frame of a connection, or an error of its transport.
  frame : (connection : ℕ) → Option Bytes → NetEvent
  closed : (connection : ℕ) → NetEvent

-- Whether the worker of each connection runs, and what was delivered, with its connection.
pub record Receiver (Message : Type 0) : Type 0 where
  pub workers : List Bool
  pub delivered : List (ℕ × Message)

abbrev pub new_receiver : {Message : Type 0} → Receiver Message
new_receiver = record { workers = []; delivered = [] }

unfoldable pub running : ℕ → List Bool → Bool
running i [] = false
running zero (w ∷ workers) = w
running (suc i) (w ∷ workers) = running i workers

-- A worker returns.
unfoldable pub stop : ℕ → List Bool → List Bool
stop i [] = []
stop zero (w ∷ workers) = false ∷ workers
stop (suc i) (w ∷ workers) = w ∷ stop i workers

module _ {Message : Type 0} (deserialize : Bytes → Option Message) where
  unfoldable pub decoded : Option Bytes → Option Message
  decoded none = none
  decoded (some bytes) = deserialize bytes

  -- One turn of the loop of NetReceiver::spawn_worker.
  unfoldable pub on_frame : (connection : ℕ) → Option Bytes → Receiver Message → Receiver Message
  unfolding decoded stop
  on_frame i f st = elim (decoded f) [
    | none ↦ record st { workers = stop i st.workers }
    | some message ↦ record st { delivered = st.delivered ++ (i, message) ∷ [] }
  ]

  -- NetReceiver::run and its workers.
  unfoldable pub receive : NetEvent → Receiver Message → Receiver Message
  unfolding on_frame running stop
  receive accepted st = record st { workers = st.workers ++ true ∷ [] }
  receive accept_failed st = st
  receive (frame i f) st = if running i st.workers then on_frame i f st else st
  receive (closed i) st = record st { workers = stop i st.workers }

  unfoldable pub receive_all : List NetEvent → Receiver Message → Receiver Message
  unfolding receive
  receive_all [] st = st
  receive_all (e ∷ events) st = receive_all events (receive e st)

-- Front::run and Front::spawn_worker: a transaction is the frame as it comes.
unfoldable pub front_run : List NetEvent → Receiver Bytes → Receiver Bytes
unfolding receive_all
front_run = receive_all some
