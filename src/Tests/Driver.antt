-- ===== src/Tests/Driver.antt =====
-- Examples about the node with the mempool behind its driver: a payload arrives before the request.
use gnosis.Error.{ok}
use gnosis.Mempool.State.{payload}
use gnosis.Messages.Build.{new_block}
use gnosis.Messages.{Block, opt, genesis_qc}
use gnosis.Core.Chain.{mempool_verify, generate_proposal}
use gnosis.Prelude.{ℕ, List, none, ◌≡◌, ◌∷◌, true, [], refl, nat_eq}
use gnosis.Core.State
use gnosis.Core.Round
use gnosis.Aggregator
use gnosis.Leader
use gnosis.Crypto.{verify}
use gnosis.Prelude.Map.{lookup, add, insert, mem, discard, discard_all}
use gnosis.Prelude.Words.{be_bytes, le_bytes}
use gnosis.Mempool.Payload.{payload_size, payload_digest}
use gnosis.Messages.Digests.{block_digest}
use gnosis.Mempool.State as Pool
use gnosis.Mempool.Loop
use gnosis.Mempool.Config
use gnosis.Mempool.Handlers
use gnosis.Tests.Toy.{toy, node}
use gnosis.Tests.Pool.{pool, two, theirs, wanting, pool-IsHashSet}
use gnosis.Mempool.Queues.{IsFiled, IsPayload}
use gnosis.Driver.{driven, pool_after}
use gnosis.Driver.Stored.{generate_proposal_stored, mempool_verify_stored}

abbrev between : ℕ → List Loop.Event
between n = Loop.message (payload theirs) ∷ []

abbrev fresh_core : Pool.Core
fresh_core = Handlers.new_core pool 1 two Config.default_parameters

abbrev env : State.Env
env = driven pool fresh_core between 10

present : (mempool_verify env wanting opt node).0 ≡ ok true
unfolding mempool_verify driven State.lift State.◌>>=◌ State.modify State.get Loop.on_event
    Handlers.get_payload Handlers.verify_payload Pool.◌>>=◌ Pool.get Pool.modify Pool.pure lookup
    Loop.run Handlers.handle_others_payload Handlers.enqueue Handlers.store_payload Pool.lift
    Config.exists pool_after Round.new_core Handlers.new_core payload_size verify payload_digest
    Aggregator.new Leader.new add insert mem discard discard_all be_bytes le_bytes
present = refl

mempool_verify_stored_example :
    IsFiled pool
      (pool_after pool fresh_core between (mempool_verify env wanting opt node).1.mempool).store
      5
unfolding mem
mempool_verify_stored_example =
    mempool_verify_stored pool between 1 two Config.default_parameters 10 wanting opt node 5
      pool-IsHashSet present refl

abbrev proposed : Block
proposed = new_block toy genesis_qc 1 1 0 0 (5 ∷ []) opt

made : (generate_proposal env 1 0 none opt node).0 ≡ ok proposed
unfolding generate_proposal driven new_block block_digest State.pure State.◌>>=◌ State.modify
    State.get Loop.on_event Handlers.get_payload Handlers.verify_payload Pool.◌>>=◌ Pool.get
    Pool.modify Pool.pure lookup Loop.run Handlers.handle_others_payload Handlers.enqueue
    Handlers.store_payload Pool.lift Config.exists pool_after Round.new_core Handlers.new_core
    payload_size verify payload_digest Aggregator.new Leader.new add insert mem discard discard_all
    be_bytes le_bytes
made = refl

generate_proposal_stored_example :
    IsPayload pool 5
    × IsFiled pool
        (pool_after pool fresh_core between
          (generate_proposal env 1 0 none opt node).1.mempool).store
        5
unfolding mem new_block
generate_proposal_stored_example =
    generate_proposal_stored pool between 1 two Config.default_parameters 10 1 0 none opt node
      proposed 5 pool-IsHashSet made refl
