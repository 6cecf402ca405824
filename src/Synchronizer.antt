-- ===== src/Synchronizer.antt =====
-- The task of `Synchronizer` in consensus/src/synchronizer.rs, which waits for the parents of
-- blocks. The messages logged are left out.
pub mod Parents
use gnosis.Messages.Digests.{block_digest}
use gnosis.Prelude.Map.{discard, Map, contains_key, mem, insert, remove, add}
use gnosis.Messages.{Block, ConsensusMessage, sync_request, parent, hs_loop_back}
use gnosis.Crypto.{Crypto, PublicKey, Digest}
use gnosis.Prelude.{
  [], ℕ, List, ◌∷◌, if◌then◌else◌, map, suc, ◌++◌, ltb, zero, ◌+◌, get_elem?, ◌≡◌, nat_eq, some,
  true,
}
use gnosis.Config.{SocketAddr, Committee, broadcast_addresses}

pub record Task : Type 0 where
  pub waiting : List Block
  pub pending : List Digest
  -- When a block was requested.
  pub requests : Map Digest ℕ
  pub network_filter : List (ConsensusMessage × List SocketAddr)
  pub core_channel : List ConsensusMessage

abbrev pub new_task : Task
new_task = record {
  waiting = [];
  pending = [];
  requests = [];
  network_filter = [];
  core_channel = [];
}

unfoldable pub remove_at : ℕ → List Block → List Block
remove_at i [] = []
remove_at zero (b ∷ bs) = bs
remove_at (suc i) (b ∷ bs) = b ∷ remove_at i bs

-- The task beside the store, to which others write.
pub record System : Type 0 where
  pub store : Map Digest Block
  pub task : Task

abbrev pub start : Map Digest Block → System
start store = record { store = store; task = new_task }

module _ (crypto : Crypto) (name : PublicKey) (committee : Committee) (sync_retry_delay : ℕ) where
  -- Synchronizer::transmit with no receiver and the tag OPT: to all others.
  unfoldable pub broadcast : ConsensusMessage → Task → Task
  broadcast message t = record t {
    network_filter = t.network_filter ++ (message, broadcast_addresses committee name) ∷ [];
  }

  unfoldable pub request_parent : (now : ℕ) → Digest → Task → Task
  unfolding broadcast
  request_parent now digest t =
      if contains_key digest t.requests
      then t
      else broadcast (sync_request digest name)
          (record t { requests = insert digest now t.requests })

  unfoldable pub on_block : (now : ℕ) → Block → Task → Task
  unfolding request_parent
  on_block now block t =
      if mem (block_digest crypto block) t.pending
      then t
      else request_parent now (parent block) (record t {
        pending = add (block_digest crypto block) t.pending;
        waiting = block ∷ t.waiting;
      })

  -- The i-th waiter returns its block.
  unfoldable pub on_delivered : ℕ → Block → Task → Task
  unfolding remove_at
  on_delivered i block t = record t {
    waiting = remove_at i t.waiting;
    pending = discard (block_digest crypto block) t.pending;
    requests = remove (parent block) t.requests;
    core_channel = t.core_channel ++ hs_loop_back block ∷ [];
  }

  unfoldable pub retry : (now : ℕ) → Map Digest ℕ → Task → Task
  unfolding broadcast
  retry now [] t = t
  retry now (e ∷ requests) t =
      retry now requests
        (if ltb (e.1 + sync_retry_delay) now then broadcast (sync_request e.0 name) t else t)

  unfoldable pub on_timer : (now : ℕ) → Task → Task
  unfolding retry
  on_timer now t = retry now t.requests t

  pub data Step : System → System → Type 0 where
    stored :
        {s : System} (d : Digest) (block : Block)
        → Step s (record s { store = insert d block s.store })
    received :
        {s : System} (now : ℕ) (block : Block)
        → Step s (record s { task = on_block now block s.task })
    delivered :
        {s : System} (i : ℕ) (block : Block)
        → get_elem? s.task.waiting i ≡ some block
        → contains_key (parent block) s.store ≡ true
        → Step s (record s { task = on_delivered i block s.task })
    timed : {s : System} (now : ℕ) → Step s (record s { task = on_timer now s.task })

  pub data Steps : System → System → Type 0 where
    stay : {s : System} → Steps s s
    then_step : {s t u : System} → Steps s t → Step t u → Steps s u
