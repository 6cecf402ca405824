-- ===== src/Core/Chain.antt =====
-- Sending, proposing, the stored chain and its commit: consensus/src/synchronizer.rs (`transmit`,
-- `get_parent_block`, `get_ancestors`), consensus/src/mempool.rs and the same of
-- consensus/src/core.rs. Waiting, logs and the delays between proposals have no part in it.
use gnosis.Messages.Build.{new_block}
use gnosis.Messages.Digests.{block_digest}
use gnosis.Error.{Outcome, panic, out_of_fuel, ok, err, invalid_payload}
use gnosis.Prelude.Map.{insert, lookup}
use gnosis.Crypto.{Digest, PublicKey}
use gnosis.Prelude.{
  Option, none, ◌∷◌, ℕ, if◌then◌else◌, Bool, List, some, suc, nat_eq, true, ltb, nat_eqb, not, [],
  is_empty, false, zero,
}
use gnosis.Messages.{
  ConsensusMessage, Block, Qc, qc_eq, genesis_qc, sync_reply, genesis, opt, parent,
}
use mathlib.Core.Option.{Option}
use gnosis.Config.{Committee, SocketAddr}
use gnosis.Config
use gnosis.Error
use mathlib.Core.Option
use gnosis.Core.State.{
  Core, M, ◌>>=◌, ◌>>◌, FilterInput, Env, get, lift, PayloadStatus, modify, pure, cleanup,
  verify_payload, get_payload, done, accept, reject, wait,
}

-- The two network channels.
pub data Net : Type 0 where
  filter filter_smvba : Net

-- The receivers of a message: one authority, or all but the sender.
unfoldable pub receivers : Committee → PublicKey → Option PublicKey → ℕ → Outcome (List SocketAddr)
receivers committee from none tag = ok (
    if nat_eqb tag opt
    then Config.broadcast_addresses committee from
    else Config.smvba_broadcast_addresses committee from)
receivers committee from (some to) tag =
    let one : Outcome SocketAddr =
      if nat_eqb tag opt then Config.address committee to else Config.smvba_address committee to in
    Error.◌>>=◌ one (λ a. ok (a ∷ []))

unfoldable pub push : Net → FilterInput → Core → Core
push filter m s = record s { network_filter = m ∷ s.network_filter }
push filter_smvba m s = record s { network_filter_smvba = m ∷ s.network_filter_smvba }

-- Synchronizer::transmit
unfoldable pub transmit :
    ConsensusMessage → (from : PublicKey) → (to : Option PublicKey) → Net → (tag : ℕ) → M (Unit {0})
transmit message from to net tag = do
  s ← get
  addresses ← lift (receivers s.committee from to tag)
  modify (push net (message, addresses))

-- Synchronizer::get_parent_block. A missing parent is asked for. The store holds blocks alone here: an
-- error of the store, and a payload of the mempool under the parent's digest, which cannot be read as
-- a block, are left out.
unfoldable pub get_parent_block : Block → M (Option Block)
get_parent_block block = do
  s ← get
  if qc_eq block.qc genesis_qc then pure (some genesis) else elim (lookup (parent block) s.store) [
    | some b ↦ pure (some b)
    | none ↦ do modify (λ s. record s { synchronizer = block ∷ s.synchronizer }); pure none
  ]

-- Panics if the parent's own parent is missing.
unfoldable pub or_panic : Option Block → M Block
or_panic none = lift panic
or_panic (some b) = pure b

-- Synchronizer::get_ancestors
unfoldable pub get_ancestors : Block → M (Option (Block × Block))
unfolding or_panic
get_ancestors block = do
  p ← get_parent_block block
  elim p [
    | none ↦ pure none
    | some b1 ↦ do q ← get_parent_block b1; b0 ← or_panic q; pure (some (b0, b1))
  ]

module _ (env : Env) where
  open env use {crypto, payload, status, chain_bound}

  -- store_block
  unfoldable pub store_block : Block → Core → Core
  store_block block s = record s { store = insert (block_digest crypto block) block s.store }

  unfoldable pub payload_of_status : PayloadStatus → Outcome Bool
  payload_of_status accept = ok true
  payload_of_status reject = err invalid_payload
  payload_of_status wait = ok false

  -- MempoolDriver::verify
  unfoldable pub mempool_verify : Block → ℕ → M Bool
  unfolding payload_of_status
  mempool_verify block tag = do
    modify (λ s. record s { mempool = verify_payload block tag ∷ s.mempool })
    s ← get
    lift (payload_of_status (status s.mempool))

  -- MempoolDriver::cleanup_par
  unfoldable pub cleanup_par : Block → M (Unit {0})
  cleanup_par b0 = modify (λ s. record s { mempool = cleanup b0.payload b0.height ∷ s.mempool })

  -- MempoolDriver::get and generate_proposal
  unfoldable pub generate_proposal : (height round : ℕ) → Option Qc → (tag : ℕ) → M Block
  generate_proposal height round qc tag = do
    modify (λ s. record s { mempool = get_payload s.parameters.max_payload_size tag ∷ s.mempool })
    s ← get
    pure (
        new_block crypto (Option.get_or qc genesis_qc) s.name height s.epoch round
          (payload s.mempool) tag)

  -- The loop of `commit`: from the block down to the last committed height, or to a block whose
  -- parent is missing.
  unfoldable pub commit_loop : ℕ → Block → M (Unit {0})
  commit_loop zero block = lift out_of_fuel
  commit_loop (suc fuel) block =
      let next = λ (b : Block). commit_loop fuel b in
      do
        s ← get
        if ltb s.last_committed_height block.height
            then (do
              if not (is_empty block.payload) then cleanup_par block else done
              p ← get_parent_block block
              elim p [ none ↦ done | some b ↦ next b ])
            else done

  unfoldable pub commit : Block → M (Unit {0})
  commit block = commit_loop chain_bound block

  -- `commit`, the new last committed height and the message on the commit channel.
  unfoldable pub deliver : Block → M (Unit {0})
  deliver block = do
    commit block
    modify (λ s. record s { last_committed_height = block.height })
    modify (λ s. record s { commit_channel = block ∷ s.commit_channel })

  -- `if block.height > self.last_committed_height { … }`, as process_opt_block, handle_par_prepare
  -- and process_par_out have it; whether it was taken.
  unfoldable pub deliver_above : Block → M Bool
  deliver_above block = do
    s ← get
    if ltb s.last_committed_height block.height then (do deliver block; pure true) else pure false

-- handle_sync_request
unfoldable pub handle_sync_request : Digest → PublicKey → M (Unit {0})
handle_sync_request digest sender = do
  s ← get
  elim (lookup digest s.store) [
    | none ↦ done
    | some block ↦ transmit (sync_reply block) s.name (some sender) filter opt
  ]
