-- ===== src/Tests/Pool.antt =====
-- Examples about the core of the mempool and its synchronizer, at a committee of two.
use gnosis.Mempool.Capacity.{FitsCapacity, handle_own_payload-FitsCapacity}
use gnosis.Messages.Digests.{block_digest}
use gnosis.Mempool.Pending.{Awaits, pending_waits}
use gnosis.Prelude.Map.{lookup, mem, contains_key, insert, add}
use gnosis.Mempool.Loopback.{LoopsBack, looped_back_stored}
use gnosis.Crypto.{Digest, verify}
use gnosis.Mempool.Handlers.{new_core}
use gnosis.Mempool.Synchronizer.{
  Waiter, on_delivered, on_message, on_sync, wait_for, request_missing,
}
use gnosis.Mempool.Queues.{entry_digest}
use gnosis.Mempool.Loop.{block_stored, on_event, Event, run, consensus, message}
use gnosis.Mempool.System.{
  received, System, Steps, start, then_step, stay, handled, delivered, cancelled, ready,
}
use gnosis.Mempool.Requests.{
  Splits, Settles, handle_others_payload-Settles, get_payload-Splits, verify_payload_lem,
}
use gnosis.Mempool.Answers.{AllBacked, run-payloads_stored}
use gnosis.Messages.{Block, genesis_qc, opt}
use gnosis.Mempool.Payload.{Payload, payload_digest, payload_size}
use gnosis.Prelude.{
  ◌∷◌, List, All, max, arith, [], In, ◌≡◌, refl, some, if◌then◌else◌, all, inl, false, ◌||◌, true,
  ◌++◌, ◌&&◌, nat_eq, not, none,
}
use gnosis.Mempool.State.{
  Entry, payload_entry, ◌>>=◌, get, lift, Env, lift, Core, IsHashSet, payload, sync, get, modify,
  pure,
}
use gnosis.Prelude.Words.{le_bytes, be_bytes}
use gnosis.Tests.Toy.{toy, signed_by}
use gnosis.Core.State.{get_payload, verify_payload}
use gnosis.Mempool.Error.{ok}
use gnosis.Mempool.Handlers
use gnosis.Mempool.Config

abbrev pub pool : Env
pool = record {
  crypto = toy;
  payload_in = λ b. none;
  with_capacity = λ n. n;
  reserve = λ c n. max c n;
  iter = λ queue. queue;
}

pub pool-IsHashSet : IsHashSet pool
pool-IsHashSet = record { keeps = λ c n h. omega (arith, h); mem-iter = λ d queue. refl }

abbrev pub two : Config.Committee
two = record {
  authorities =
      (1, record { name = 1; front_address = 31; mempool_address = 41 })
      ∷ (2, record { name = 2; front_address = 32; mempool_address = 42 })
      ∷ [];
  epoch = 0;
}

-- Its digest is 5.
abbrev pub theirs : Payload
theirs = record { transactions = (1 ∷ 2 ∷ []) ∷ []; author = 2; signature = signed_by 2 }

abbrev pub wanting : Block
wanting = record {
  qc = genesis_qc;
  author = 2;
  height = 1;
  epoch = 0;
  payload = 5 ∷ [];
  signature = signed_by 2;
  tag = opt;
  round = 0;
}

abbrev events : List Event
events =
    consensus (verify_payload wanting opt)
    ∷ message (payload theirs)
    ∷ block_stored wanting
    ∷ consensus (verify_payload wanting opt)
    ∷ consensus (get_payload 64 opt)
    ∷ []

abbrev fresh_core : Core
fresh_core = new_core pool 1 two Config.default_parameters

run-payloads_stored_example :
    AllBacked pool (run pool events fresh_core).1.store events (run pool events fresh_core).0
    × ((d : Digest) (e : Entry)
        → lookup d (run pool events fresh_core).1.store ≡ some e
        → entry_digest pool e ≡ d)
    × ((d : Digest)
        → mem d (run pool events fresh_core).1.opt_queue
            || mem d (run pool events fresh_core).1.pes_queue
          ≡ true
        → contains_key d (run pool events fresh_core).1.store ≡ true)
run-payloads_stored_example =
    run-payloads_stored pool events 1 two Config.default_parameters pool-IsHashSet

-- The core after it received the payload.
abbrev filled : Core
filled = record fresh_core {
  store = (5, payload_entry theirs) ∷ [];
  opt_queue = 5 ∷ [];
  pes_queue = 5 ∷ [];
}

get_payload-Splits_example : Splits pool 64 opt filled (Handlers.get_payload pool 64 opt filled)
get_payload-Splits_example = get_payload-Splits pool 64 opt filled pool-IsHashSet refl

verify_payload_lem_example :
    (missing : List Digest) × (Handlers.verify_payload pool wanting opt fresh_core ≡ (
      if all (λ d. contains_key d fresh_core.store) wanting.payload
      then (ok true, fresh_core)
      else (
        ok false,
        record fresh_core {
          synchronizer = fresh_core.synchronizer ++ sync missing wanting opt ∷ [];
        },
      )))
    × ((d : Digest)
        → mem d missing ≡ mem d wanting.payload && not (contains_key d fresh_core.store))
verify_payload_lem_example = verify_payload_lem pool wanting opt fresh_core

handle_others_payload-Settles_example :
    Settles pool theirs fresh_core (Handlers.handle_others_payload pool theirs fresh_core)
handle_others_payload-Settles_example = handle_others_payload-Settles pool theirs fresh_core

abbrev at_start : System
at_start = start pool 1 two 100 Config.default_parameters

-- The block waits.
abbrev asked : System
asked = record at_start {
  core = (on_event pool (consensus (verify_payload wanting opt)) at_start.core).1;
}

abbrev waits : System
waits = record {
  core = record asked.core { synchronizer = [] };
  task = on_message pool 1 two 100 9 (sync (5 ∷ []) wanting opt) asked.task;
}

waits-Steps : Steps pool 1 two 100 at_start waits
unfolding on_event Handlers.verify_payload ◌>>=◌ get lookup new_core add mem modify pure
waits-Steps =
    then_step (then_step stay (handled {s = at_start} (consensus (verify_payload wanting opt))))
      (received {s = asked} 9 (sync (5 ∷ []) wanting opt) [] refl refl)

waits_found : lookup (block_digest toy wanting) waits.task.pending ≡ some (1, 0)
unfolding on_message on_sync wait_for request_missing lookup insert block_digest be_bytes le_bytes
    Config.mempool_address
waits_found = refl

pending_waits_example :
    (w : Waiter) × In w waits.task.waiting
    × Awaits pool (block_digest toy wanting) (1, 0) w
    × (cancelled w waits.task ≡ false)
pending_waits_example =
    pending_waits pool 1 two Config.default_parameters 100 waits (block_digest toy wanting) (1, 0)
      waits-Steps waits_found

-- The payload arrives, and the block is given back.
abbrev arrived : System
arrived = record waits { core = (on_event pool (message (payload theirs)) waits.core).1 }

abbrev waiter : Waiter
waiter = record { id = 0; missing = 5 ∷ []; block = wanting; tag = opt }

abbrev given : System
given = record arrived { task = on_delivered pool 1 two 100 waiter arrived.task }

waits-alive : waits.task.alive ≡ true
unfolding on_message lookup insert Config.mempool_address
waits-alive = refl

waiter-In : In waiter waits.task.waiting
unfolding on_message lookup insert Config.mempool_address In
waiter-In = inl refl

waiter-ready : ready waiter arrived.core.store ≡ true
unfolding on_event Handlers.handle_others_payload ◌>>=◌ get lift Config.exists new_core add mem
    modify lookup insert payload_size verify Handlers.verify_payload pure Handlers.enqueue
    Handlers.store_payload payload_digest be_bytes le_bytes
waiter-ready = refl

given-Steps : Steps pool 1 two 100 at_start given
given-Steps =
    then_step (then_step waits-Steps (handled {s = waits} (message (payload theirs))))
      (delivered {s = arrived} waiter waits-alive waiter-In waiter-ready)

looped_back_stored_example :
    All (LoopsBack given.core.store) given.task.consensus_channel
    × All (LoopsBack given.core.store) given.task.consensus_channel_smvba
looped_back_stored_example =
    looped_back_stored pool 1 two Config.default_parameters 100 given pool-IsHashSet given-Steps

handle_own_payload-FitsCapacity_example :
    FitsCapacity fresh_core.opt_capacity fresh_core.pes_capacity
      (Handlers.handle_own_payload pool theirs fresh_core).1
unfolding new_core
handle_own_payload-FitsCapacity_example =
    handle_own_payload-FitsCapacity pool theirs fresh_core pool-IsHashSet (omega arith)
      (omega arith)
