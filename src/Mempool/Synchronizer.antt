-- ===== src/Mempool/Synchronizer.antt =====
-- The task of `Synchronizer` in mempool/src/synchronizer.rs. A waiter has a number, which stands for
-- the channel of its handler: it is cancelled by a message or when the handler is dropped. The
-- messages logged are left out.
use gnosis.Messages.Digests.{block_digest}
use gnosis.Config.{SocketAddr}
use gnosis.Mempool.Config.{Committee}
use gnosis.Crypto.{Digest, PublicKey}
use gnosis.Mempool.State.{Env, MempoolMessage, SynchronizerMessage, sync, payload_request, clean}
use gnosis.Prelude.Map.{Map, insert, remove, contains_key}
use gnosis.Prelude.{
  ℕ, [], List, true, ◌∷◌, if◌then◌else◌, ltb, ◌==◌, ◌++◌, nat_eq, Bool, ◌+◌, false,
}
use gnosis.Messages.{Block, ConsensusMessage, hs_loop_back, par_loop_back, fb_loop_back, opt, pes}
use gnosis.Mempool.Error.{ok, err}
use gnosis.Mempool.Config

pub record Waiter : Type 0 where
  pub id : ℕ
  pub missing : List Digest
  pub block : Block
  pub tag : ℕ

pub record Task : Type 0 where
  pub waiting : List Waiter
  -- The height of a block, and the handler of its waiter.
  pub pending : Map Digest (ℕ × ℕ)
  -- The height of the block that wants a payload, and when it was requested.
  pub requests : Map Digest (ℕ × ℕ)
  pub next_id : ℕ
  pub network_channel : List (MempoolMessage × List SocketAddr)
  pub consensus_channel : List ConsensusMessage
  pub consensus_channel_smvba : List ConsensusMessage
  -- Whether the task has not panicked.
  pub alive : Bool

abbrev pub new_task : Task
new_task = record {
  waiting = [];
  pending = [];
  requests = [];
  next_id = 0;
  network_channel = [];
  consensus_channel = [];
  consensus_channel_smvba = [];
  alive = true;
}

-- The missing payloads that are not requested yet.
unfoldable pub unrequested : Map Digest (ℕ × ℕ) → List Digest → List Digest
unrequested requests [] = []
unrequested requests (d ∷ digests) =
    let rest = unrequested requests digests in if contains_key d requests then rest else d ∷ rest

unfoldable pub record_requests :
    (round now : ℕ) → List Digest → Map Digest (ℕ × ℕ) → Map Digest (ℕ × ℕ)
record_requests round now [] requests = requests
record_requests round now (d ∷ digests) requests =
    record_requests round now digests (insert d (round, now) requests)

-- The entries of a later height.
unfoldable pub retain_above : ℕ → Map Digest (ℕ × ℕ) → Map Digest (ℕ × ℕ)
retain_above round [] = []
retain_above round (e ∷ m) =
    let rest = retain_above round m in if ltb round e.1.0 then e ∷ rest else rest

unfoldable pub remove_all : List Digest → Map Digest (ℕ × ℕ) → Map Digest (ℕ × ℕ)
remove_all [] m = m
remove_all (d ∷ digests) m = remove_all digests (remove d m)

unfoldable pub without : ℕ → List Waiter → List Waiter
without id [] = []
without id (w ∷ waiters) = let rest = without id waiters in if w.id == id then rest else w ∷ rest

-- The digests that were requested longer ago than the delay.
unfoldable pub overdue : (delay now : ℕ) → Map Digest (ℕ × ℕ) → List Digest
overdue delay now [] = []
overdue delay now (e ∷ m) =
    let rest = overdue delay now m in if ltb (e.1.1 + delay) now then e.0 ∷ rest else rest

module _ (env : Env) (name : PublicKey) (committee : Committee) (sync_retry_delay : ℕ) where
  unfoldable pub wait_for : List Digest → Block → (tag : ℕ) → Task → Task
  wait_for missing block tag t = record t {
    waiting = record { id = t.next_id; missing = missing; block = block; tag = tag } ∷ t.waiting;
    pending = insert (block_digest env.crypto block) (block.height, t.next_id) t.pending;
    next_id = t.next_id + 1;
  }

  -- The request to the author of a block; the task panics if it is not in the committee.
  unfoldable pub request_from : PublicKey → List Digest → Task → Task
  request_from author digests t = elim (Config.mempool_address committee author) [
    | ok address ↦ record t {
      network_channel = t.network_channel ++ (payload_request digests name, address ∷ []) ∷ [];
    }
    | err why ↦ record t { alive = false }
  ]

  unfoldable pub request_missing : (now : ℕ) → List Digest → Block → Task → Task
  unfolding request_from record_requests
  request_missing now [] block t = t
  request_missing now (d ∷ digests) block t =
      request_from block.author (d ∷ digests)
        (record t { requests = record_requests block.height now (d ∷ digests) t.requests })

  unfoldable pub on_sync : (now : ℕ) → List Digest → Block → (tag : ℕ) → Task → Task
  unfolding wait_for request_missing unrequested
  on_sync now missing block tag t =
      if contains_key (block_digest env.crypto block) t.pending
      then t
      else request_missing now (unrequested t.requests (env.iter missing)) block
          (wait_for missing block tag t)

  unfoldable pub on_clean : (round : ℕ) → Task → Task
  unfolding retain_above
  on_clean round t = record t {
    pending = retain_above round t.pending;
    requests = retain_above round t.requests;
  }

  unfoldable pub on_message : (now : ℕ) → SynchronizerMessage → Task → Task
  unfolding on_sync on_clean
  on_message now (sync missing block tag) t = on_sync now missing block tag t
  on_message now (clean round) t = on_clean round t

  unfoldable pub loop_back : Block → (tag : ℕ) → Task → Task
  loop_back block tag t =
      if tag == opt
      then record t { consensus_channel = t.consensus_channel ++ hs_loop_back block ∷ [] }
      else if tag == pes
      then record t {
        consensus_channel_smvba = t.consensus_channel_smvba ++ par_loop_back block ∷ [];
      }
      else record t {
        consensus_channel_smvba = t.consensus_channel_smvba ++ fb_loop_back block ∷ [];
      }

  -- A waiter returns its block.
  unfoldable pub on_delivered : Waiter → Task → Task
  unfolding without remove_all loop_back
  on_delivered w t = loop_back w.block w.tag (record t {
    waiting = without w.id t.waiting;
    pending = remove (block_digest env.crypto w.block) t.pending;
    requests = remove_all w.block.payload t.requests;
  })

  -- A waiter returns none.
  unfoldable pub on_cancelled : Waiter → Task → Task
  unfolding without
  on_cancelled w t = record t { waiting = without w.id t.waiting }

  unfoldable pub retransmit : List Digest → Task → Task
  retransmit [] t = t
  retransmit (d ∷ digests) t = record t {
    network_channel =
        t.network_channel
        ++ (payload_request (d ∷ digests) name, Config.broadcast_addresses committee name) ∷ [];
  }

  unfoldable pub on_timer : (now : ℕ) → Task → Task
  unfolding retransmit overdue
  on_timer now t = retransmit (overdue sync_retry_delay now t.requests) t
