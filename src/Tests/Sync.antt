-- ===== src/Tests/Sync.antt =====
-- An example about the synchronizer of the consensus: a block whose parent is not stored.
use gnosis.Prelude.Map.{contains_key}
use gnosis.Messages.{Block, parent}
use gnosis.Prelude.{[], All, In, ◌≡◌, true, ◌⊎◌, nat_eq}
use gnosis.Synchronizer.{System, Steps, received, stay, then_step, start, on_block}
use gnosis.Synchronizer.Parents.{LoopsBack, Retried, parents_sought}
use gnosis.Tests.Toy.{toy, four, first_block}

abbrev waits : System
waits = record { store = []; task = on_block toy 1 four 100 5 first_block (start []).task }

waits-Steps : Steps toy 1 four 100 (start []) waits
waits-Steps = then_step stay (received {s = start []} 5 first_block)

parents_sought_example :
    All (LoopsBack waits.store) waits.task.core_channel
    × ((b : Block)
        → In b waits.task.waiting
        → (contains_key (parent b) waits.store ≡ true)
          ⊎ Retried toy 1 four 100 waits.task (parent b))
parents_sought_example = parents_sought toy 1 four 100 [] waits waits-Steps
