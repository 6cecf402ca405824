-- ===== src/Mempool/System.antt =====
-- The core of the mempool and the task of its synchronizer, which share the store
-- (mempool/src/core.rs, mempool/src/synchronizer.rs), as a step relation. The consensus writes blocks
-- to it as events of the core. The messages of the core
-- to the task are those that the core holds, the oldest first. After a panic of the task the core,
-- which would panic at its next message to it, may go on.
use gnosis.Mempool.Handlers.{new_core}
use gnosis.Mempool.Loop.{Event, on_event}
use gnosis.Mempool.Config.{Committee, Parameters}
use gnosis.Crypto.{PublicKey, Digest}
use gnosis.Prelude.{
  List, Bool, ◌∷◌, ◌≡◌, ℕ, all, [], true, nat_eq, not, ◌==◌, false, if◌then◌else◌, In,
}
use gnosis.Prelude.Map.{Map, contains_key}
use gnosis.Mempool.Synchronizer.{
  Waiter, Task, on_message, on_delivered, on_cancelled, on_timer, new_task,
}
use gnosis.Mempool.State.{Core, Env, SynchronizerMessage, Entry}

pub record System : Type 0 where
  pub core : Core
  pub task : Task

-- Every digest that a waiter waits for is stored.
abbrev pub ready : Waiter → Map Digest Entry → Bool
ready w store = all (λ d. contains_key d store) w.missing

-- Whether a handler is in the map of pending blocks.
unfoldable pub held : ℕ → Map Digest (ℕ × ℕ) → Bool
held id [] = false
held id (e ∷ pending) = if e.1.1 == id then true else held id pending

-- Whether the handler of a waiter was used or dropped.
abbrev pub cancelled : Waiter → Task → Bool
cancelled w t = not (held w.id t.pending)

module _ (env : Env) (name : PublicKey) (committee : Committee) (sync_retry_delay : ℕ) where
  pub data Step : System → System → Type 0 where
    -- The core handles a message, at any time.
    handled : {s : System} (e : Event) → Step s (record s { core = (on_event env e s.core).1 })
    -- The task receives a message of the core.
    received :
        {s : System} (now : ℕ) (m : SynchronizerMessage) (rest : List SynchronizerMessage)
        → s.task.alive ≡ true
        → s.core.synchronizer ≡ m ∷ rest
        → Step s (record {
          core = record s.core { synchronizer = rest };
          task = on_message env name committee sync_retry_delay now m s.task;
        })
    -- A waiter returns its block, or none.
    delivered :
        {s : System} (w : Waiter)
        → s.task.alive ≡ true
        → In w s.task.waiting
        → ready w s.core.store ≡ true
        → Step s (record s { task = on_delivered env name committee sync_retry_delay w s.task })
    dropped :
        {s : System} (w : Waiter)
        → s.task.alive ≡ true
        → In w s.task.waiting
        → cancelled w s.task ≡ true
        → Step s (record s { task = on_cancelled env name committee sync_retry_delay w s.task })
    timed :
        {s : System} (now : ℕ)
        → s.task.alive ≡ true
        → Step s (record s { task = on_timer env name committee sync_retry_delay now s.task })

  pub data Steps : System → System → Type 0 where
    stay : {s : System} → Steps s s
    then_step : {s t u : System} → Steps s t → Step t u → Steps s u

  -- A fresh core and a fresh task.
  abbrev pub start : Parameters → System
  start parameters = record { core = new_core env name committee parameters; task = new_task }
