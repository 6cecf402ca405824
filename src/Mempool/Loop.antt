-- ===== src/Mempool/Loop.antt =====
-- Core::run in mempool/src/core.rs over a list of events: the messages of the two channels, and the
-- transactions of clients that reach the payload maker, which shares its state with the core, and the
-- blocks that the consensus writes to the store of the node at any time.
use gnosis.Messages.Digests.{block_digest}
use gnosis.Prelude.Map.{insert}
use gnosis.Messages.{Block}
use gnosis.Mempool.Handlers.{handle_own_payload, handle_others_payload, handle_request, clean_up}
use gnosis.Mempool.Payload.{Transaction, add_transaction}
use gnosis.Mempool.Error.{MempoolResult, ok, err}
use gnosis.Core.State.{
  get_payload, verify_payload, cleanup, ConsensusMempoolMessage, PayloadStatus, accept, wait,
  reject,
}
use gnosis.Crypto.{Digest}
use gnosis.Mempool.State.{
  MempoolMessage, Env, M, Core, own_payload, payload, payload_request, block_entry,
}
use gnosis.Prelude.{List, ◌∷◌, [], Bool, true, false, nat_eq}
use gnosis.Mempool.Handlers

pub data Event : Type 0 where
  message : MempoolMessage → Event
  consensus : ConsensusMempoolMessage → Event
  transaction : Transaction → Event
  block_stored : Block → Event

-- What is sent to the sender of a request.
pub data Reply : Type 0 where
  payload_reply : List Digest → Reply
  status_reply : PayloadStatus → Reply
  no_reply : Reply

module _ (env : Env) where
  unfoldable pub handle_message : MempoolMessage → M (Unit {0})
  handle_message (own_payload p) = handle_own_payload env p
  handle_message (payload p) = handle_others_payload env p
  handle_message (payload_request digests sender) = handle_request env digests sender

  -- `unwrap_or_default`
  unfoldable pub digests_of : MempoolResult (List Digest) → List Digest
  digests_of (ok digests) = digests
  digests_of (err why) = []

  unfoldable pub status_of : MempoolResult Bool → PayloadStatus
  status_of (ok true) = accept
  status_of (ok false) = wait
  status_of (err why) = reject

  unfoldable pub handle_consensus : ConsensusMempoolMessage → Core → Reply × Core
  unfolding digests_of status_of
  handle_consensus (get_payload max tag) s =
      let (r, s') = Handlers.get_payload env max tag s in (payload_reply (digests_of r), s')
  handle_consensus (verify_payload block tag) s =
      let (r, s') = Handlers.verify_payload env block tag s in (status_reply (status_of r), s')
  handle_consensus (cleanup digests round) s =
      let (r, s') = clean_up env digests round s in (no_reply, s')

  -- A payload that the runner makes is a later `message (own_payload p)`.
  unfoldable pub add_client : Transaction → Core → Core
  add_client tx s = record s { payload_maker = (add_transaction env.crypto s.payload_maker tx).0 }

  -- store_block of the consensus, in the store that it shares with the mempool.
  unfoldable pub write_block : Block → Core → Core
  write_block block s = record s {
    store = insert (block_digest env.crypto block) (block_entry block) s.store;
  }

  unfoldable pub on_event : Event → Core → Reply × Core
  unfolding handle_message handle_consensus add_client write_block
  on_event (message m) s = let (r, s') = handle_message m s in (no_reply, s')
  on_event (consensus m) s = handle_consensus m s
  on_event (transaction tx) s = (no_reply, add_client tx s)
  on_event (block_stored block) s = (no_reply, write_block block s)

  -- The replies and the last state.
  unfoldable pub run : List Event → Core → List Reply × Core
  unfolding on_event
  run [] s = ([], s)
  run (e ∷ events) s =
      let (r, s') = on_event e s in let (rest, s'') = run events s' in (r ∷ rest, s'')
