-- ===== src/Driver.antt =====
-- The consensus with the mempool behind its driver: the answers that consensus/src/core.rs gets
-- through consensus/src/mempool.rs, computed by the mempool of mempool/src/core.rs. Other events
-- reach the mempool between the requests, given by a schedule, the blocks among them that the
-- consensus writes to the store that both share.
pub mod Stored
use gnosis.Crypto.{Digest}
use gnosis.Mempool.Loop.{no_reply, status_reply, payload_reply}
use gnosis.Prelude.{ℕ, List, ◌∷◌, length, []}
use gnosis.Core.State
use gnosis.Mempool.State as Pool
use gnosis.Mempool.Loop
use gnosis.Core.State.{ConsensusMempoolMessage, PayloadStatus, accept, wait, reject}

-- The answer to the last of the messages, and the mempool after it; the newest message first, with
-- the events that arrive before the n-th message.
module _ (pool : Pool.Env) (start : Pool.Core) (between : ℕ → List Loop.Event) where
  unfoldable pub pool_after : List ConsensusMempoolMessage → Pool.Core
  pool_after [] = start
  pool_after (m ∷ asked) =
      (Loop.on_event pool (Loop.consensus m)
        (Loop.run pool (between (length asked)) (pool_after asked)).1).1

  unfoldable pub last_reply : List ConsensusMempoolMessage → Loop.Reply
  last_reply [] = no_reply
  last_reply (m ∷ asked) =
      (Loop.on_event pool (Loop.consensus m)
        (Loop.run pool (between (length asked)) (pool_after asked)).1).0

  unfoldable pub received_payload : Loop.Reply → List Digest
  received_payload (payload_reply digests) = digests
  received_payload _ = []

  unfoldable pub received_status : Loop.Reply → PayloadStatus
  received_status (status_reply status) = status
  received_status _ = reject

  -- The node's environment, with this mempool.
  unfoldable pub driven : ℕ → State.Env
  unfolding last_reply received_payload received_status
  driven chain_bound = record {
    crypto = pool.crypto;
    payload = λ asked. received_payload (last_reply asked);
    status = λ asked. received_status (last_reply asked);
    chain_bound = chain_bound;
  }
