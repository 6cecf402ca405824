-- ===== src/Network.antt =====
-- NetSender in network/src/lib.rs: one worker per peer, each with its own channel. The connections
-- themselves are given by events: when a worker writes to its connection, and when it returns, as
-- it does when it cannot connect or write. The channels' capacities and what is logged are left out.
pub mod Order
pub mod Receiver
pub mod Delivered
pub mod Arrival
use gnosis.Prelude.Map.{Map, lookup, get_or, insert, mem}
use gnosis.Prelude.{[], List, Bool, if◌then◌else◌, false, none, ℕ, ◌++◌, ◌∷◌, some, true}
use gnosis.Prelude.{nat_eq}
use gnosis.Config.{SocketAddr}

-- A message, as its bytes.
abbrev pub Bytes : Type 0
Bytes = List ℕ

-- A worker: what it wrote to its connection, what waits in its channel, and whether it runs.
pub record Worker : Type 0 where
  pub written : List Bytes
  pub queue : List Bytes
  pub alive : Bool

pub record Sender : Type 0 where
  pub senders : Map SocketAddr Worker
  -- What the workers of an address that were replaced had been handed.
  pub replaced : Map SocketAddr (List Bytes)

abbrev pub new_sender : Sender
new_sender = record { senders = []; replaced = [] }

abbrev pub handed_to : Worker → List Bytes
handed_to w = w.written ++ w.queue

-- What all workers of an address were handed.
abbrev pub handed : SocketAddr → Sender → List Bytes
handed a st =
    get_or a [] st.replaced ++ elim (lookup a st.senders) [ none ↦ [] | some w ↦ handed_to w ]

-- A worker returns before it is handed anything if `refused`: its sender is then dropped.
unfoldable pub spawn_worker : (refused : Bool) → SocketAddr → Bytes → Sender → Sender
spawn_worker true address bytes st = st
spawn_worker false address bytes st = record {
  senders = insert address (record { written = []; queue = bytes ∷ []; alive = true }) st.senders;
  replaced = insert address (handed address st) st.replaced;
}

-- One address of a message.
unfoldable pub send_to : (refused : List SocketAddr) → Bytes → SocketAddr → Sender → Sender
unfolding spawn_worker
send_to refused bytes address st = elim (lookup address st.senders) [
  | none ↦ spawn_worker (mem address refused) address bytes st
  | some w ↦
      if w.alive
      then record st {
        senders = insert address (record w { queue = w.queue ++ bytes ∷ [] }) st.senders;
      }
      else spawn_worker (mem address refused) address bytes st
]

unfoldable pub send_all : (refused : List SocketAddr) → Bytes → List SocketAddr → Sender → Sender
unfolding send_to
send_all refused bytes [] st = st
send_all refused bytes (a ∷ addresses) st =
    send_all refused bytes addresses (send_to refused bytes a st)

unfoldable pub write_next : Worker → Worker
write_next w =
    if w.alive
    then elim w.queue [
      | [] ↦ w
      | x ∷ queue ↦ record w { written = w.written ++ x ∷ []; queue = queue }
    ]
    else w

pub data Event : Type 0 where
  -- A message, its receivers, and those of them whose new worker would return at once. What a worker
  -- that returns did not write is lost.
  net_message : Bytes → List SocketAddr → (refused : List SocketAddr) → Event
  worker_writes : SocketAddr → Event
  worker_returns : SocketAddr → Event

unfoldable pub on_worker : (Worker → Worker) → SocketAddr → Sender → Sender
on_worker f address st = elim (lookup address st.senders) [
  | none ↦ st
  | some w ↦ record st { senders = insert address (f w) st.senders }
]

unfoldable pub on_event : Event → Sender → Sender
unfolding send_all on_worker write_next
on_event (net_message bytes addresses refused) st = send_all refused bytes addresses st
on_event (worker_writes address) st = on_worker write_next address st
on_event (worker_returns address) st = on_worker (λ w. record w { alive = false }) address st

-- NetSender::run
unfoldable pub run : List Event → Sender → Sender
unfolding on_event
run [] st = st
run (e ∷ events) st = run events (on_event e st)
