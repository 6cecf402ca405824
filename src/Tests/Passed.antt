-- ===== src/Tests/Passed.antt =====
-- Examples about the filter and about messages on their way to a receiver.
use gnosis.Prelude.Map.{lookup, mem, insert}
use gnosis.Core.State.{FilterInput}
use gnosis.Prelude.{
  List, ℕ, Option, ◌≡◌, true, some, map, ◌∷◌, ◌++◌, [], arith, take, false, none, refl,
}
use gnosis.Filter.{
  Filter, Event, core_recv, core_smvba_recv, pending_next, encoded, run, new_filter, NetMessage,
}
use gnosis.Filter.Order.{run-Perm, received, received_smvba}
use gnosis.Network.Arrival.{
  Bincode, Action, send, writes, event_of, addressed, receive_all-addressed,
}
use gnosis.Network.Receiver.{Receiver, NetEvent, frame, receive_all, running}
use gnosis.Network.Delivered.{delivered_on, arrivals}
use gnosis.Network.{Bytes}
use gnosis.Config.{Parameters, default_parameters}
use gnosis.Messages.{ConsensusMessage, hs_propose, sync_request}
use gnosis.Tests.Toy.{first_block}
use gnosis.Network
use mathlib.Core.List.{Perm}

abbrev serialize : ConsensusMessage → Option Bytes
serialize m = some (0 ∷ [])

serialize-some : (m : ConsensusMessage) → (bytes : Bytes) × (serialize m ≡ some bytes)
serialize-some m = (0 ∷ [], refl)

-- Proposals are delayed at random.
abbrev delaying : Parameters
delaying = record default_parameters { random_ddos = true; random_ddos_chance = 30 }

abbrev passing : List Event
passing =
    core_recv (hs_propose first_block, 7 ∷ 8 ∷ [])
    ∷ core_recv (sync_request 5 1, 7 ∷ [])
    ∷ core_smvba_recv (sync_request 6 1, 8 ∷ [])
    ∷ pending_next 1 false
    ∷ pending_next 0 true
    ∷ []

abbrev passed : Filter
passed = run serialize delaying passing new_filter

abbrev bytes_of : FilterInput → Option NetMessage
bytes_of = encoded serialize delaying

run-Perm_example :
    (passed.running ≡ true)
    × Perm
        (map some passed.network ++ map bytes_of passed.pending)
        (map bytes_of (received passing))
    × Perm
        (map some passed.net_smvba ++ map bytes_of passed.pending_smvba)
        (map bytes_of (received_smvba passing))
run-Perm_example = run-Perm serialize delaying passing serialize-some (λ h. omega arith)

-- A message is its number.
abbrev numbers : Bincode ℕ
numbers = record {
  serialize = λ m. m ∷ [];
  deserialize = λ bytes. elim bytes [ [] ↦ none | b ∷ rest ↦ some b ];
  deserialize-serialize = λ m. refl;
}

abbrev actions : List (Action ℕ)
actions = send 4 (7 ∷ 8 ∷ []) ∷ writes 7 ∷ send 5 (8 ∷ []) ∷ send 6 (7 ∷ []) ∷ []

-- Connection 1 is to address 7, and ends after two frames.
abbrev wire : List NetEvent
wire =
    frame 0 (some (9 ∷ [])) ∷ frame 1 (some (4 ∷ [])) ∷ frame 0 none ∷ frame 1 (some (6 ∷ [])) ∷ []

abbrev two_open : Receiver ℕ
two_open = record { workers = true ∷ true ∷ []; delivered = [] }

receive_all-addressed_example :
    delivered_on 1 (receive_all numbers.deserialize wire two_open).delivered
    ≡ delivered_on 1 two_open.delivered ++ take 2 (addressed 7 actions)
unfolding running lookup arrivals Network.run event_of mem insert
receive_all-addressed_example = receive_all-addressed numbers 7 1 2 actions wire two_open refl refl
