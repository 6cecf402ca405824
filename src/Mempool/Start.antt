-- ===== src/Mempool/Start.antt =====
-- How the mempool starts: Mempool::run of mempool/src/mempool.rs, less the tasks of the network, which
-- have modules of their own, and the channels that connect them.
use gnosis.Crypto.{PublicKey}
use gnosis.Mempool.State.{Env, Core}
use gnosis.Mempool.Handlers.{new_core}
use gnosis.Mempool.Config.{Committee, Parameters, front_address, mempool_address}
use gnosis.Mempool.Error.{MempoolResult, ok, ◌>>=◌}
use gnosis.Config.{SocketAddr}

-- What Mempool::run starts: the front end, the receiver and the core.
pub record MempoolTasks : Type 0 where
  pub front_address : SocketAddr
  pub mempool_address : SocketAddr
  pub core : Core

-- Mempool::run, where `any_ip` sets the IP of an address to 0.0.0.0.
unfoldable pub run :
    Env
    → (any_ip : SocketAddr → SocketAddr) → PublicKey
    → Committee
    → Parameters
    → MempoolResult MempoolTasks
run env any_ip name committee parameters = do
  front ← front_address committee name
  listening ← mempool_address committee name
  ok (record {
    front_address = any_ip front;
    mempool_address = any_ip listening;
    core = new_core env name committee parameters;
  })
