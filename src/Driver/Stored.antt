-- ===== src/Driver/Stored.antt =====
-- What the consensus proposes and accepts is in the store, with the mempool behind its driver.
use gnosis.Messages.Build.{new_block}
use gnosis.Error.{ok, Outcome}
use gnosis.Mempool.Handlers.{new_core}
use gnosis.Mempool.Handled.{HasAll}
use gnosis.Crypto.{PublicKey, Digest}
use gnosis.Messages.{Block, Qc}
use gnosis.Prelude.Map.{mem}
use gnosis.Mempool.Queues.{IsSound, IsPayload, IsFiled, IsSound-IsFiled}
use gnosis.Core.Chain.{generate_proposal, mempool_verify, payload_of_status}
use gnosis.Prelude.{
  ℕ, List, [], ◌≡◌, ◌∷◌, arith, length, refl, Option, true, nat_eq, subst, sym, ap,
}
use gnosis.Core.State
use gnosis.Mempool.Config
use gnosis.Mempool.State as Pool
use gnosis.Mempool.Loop
use gnosis.Core.State.{
  ConsensusMempoolMessage, PayloadStatus, accept, wait, reject, verify_payload, get_payload, ◌>>=◌,
}
use gnosis.Driver.{pool_after, last_reply, received_payload, received_status, driven}
use gnosis.Mempool.Answers.{
  on_event-IsSound, run-IsSound, IsSound-new_core, Kept, vouched, handed_digests,
}

module _ (pool : Pool.Env) (hash_set : Pool.IsHashSet pool) (start : Pool.Core)
    (between : ℕ → List Loop.Event) where
  pool_after-IsSound :
      (asked : List ConsensusMempoolMessage)
      → IsSound pool [] start
      → IsSound pool [] (pool_after pool start between asked)
  unfolding pool_after Kept
  pool_after-IsSound [] h = h
  pool_after-IsSound (m ∷ asked) h =
      (on_event-IsSound pool hash_set [] (Loop.consensus m) _ (
        run-IsSound pool hash_set [] (between (length asked)) (pool_after pool start between asked)
          (pool_after-IsSound asked h))).0

  last_reply-HasAll :
      (m : ConsensusMempoolMessage) (asked : List ConsensusMempoolMessage)
      → IsSound pool [] start
      → HasAll pool []
          (vouched (Loop.consensus m) (last_reply pool start between (m ∷ asked)))
          (pool_after pool start between (m ∷ asked))
  unfolding pool_after last_reply Kept
  last_reply-HasAll m asked h =
      (on_event-IsSound pool hash_set [] (Loop.consensus m) _ (
        run-IsSound pool hash_set [] (between (length asked)) (pool_after pool start between asked)
          (pool_after-IsSound asked h))).1

  -- What the last answer hands out are digests of payloads.
  last_reply-IsPayload :
      (m : ConsensusMempoolMessage) (asked : List ConsensusMempoolMessage)
      → IsSound pool [] start
      → (d : Digest) → mem d (handed_digests (last_reply pool start between (m ∷ asked))) ≡ true
      → IsPayload pool d
  unfolding last_reply Kept
  last_reply-IsPayload m asked h =
      (on_event-IsSound pool hash_set [] (Loop.consensus m) _ (
        run-IsSound pool hash_set [] (between (length asked)) (pool_after pool start between asked)
          (pool_after-IsSound asked h))).2

  received_payload-handed :
      (r : Loop.Reply) → received_payload pool start between r ≡ handed_digests r
  unfolding received_payload handed_digests
  received_payload-handed (Loop.payload_reply digests) = refl
  received_payload-handed (Loop.status_reply status) = refl
  received_payload-handed Loop.no_reply = refl

  received_payload-vouched :
      (e : Loop.Event) (r : Loop.Reply) (s : Pool.Core)
      → HasAll pool [] (vouched e r) s
      → HasAll pool [] (received_payload pool start between r) s
  unfolding received_payload vouched mem
  received_payload-vouched e (Loop.payload_reply digests) s h = h
  received_payload-vouched e (Loop.status_reply status) s h = λ d wanted. ground arith
  received_payload-vouched e Loop.no_reply s h = h

  received_status-vouched :
      (block : Block) (tag : ℕ) (r : Loop.Reply)
      → received_status pool start between r ≡ accept
      → vouched (Loop.consensus (verify_payload block tag)) r ≡ block.payload
  unfolding received_status vouched
  received_status-vouched block tag (Loop.payload_reply digests) e = ground arith
  received_status-vouched block tag (Loop.status_reply accept) e = refl
  received_status-vouched block tag (Loop.status_reply wait) e = ground arith
  received_status-vouched block tag (Loop.status_reply reject) e = ground arith
  received_status-vouched block tag Loop.no_reply e = ground arith

-- With a mempool behind the driver that was fresh at first, whatever reached it between the
-- requests of the node and whatever blocks the consensus wrote to the store, each digest in the
-- payload of a block that the node proposes is the digest of a payload, and the store then holds
-- something of this digest under it, a payload or else a block. The hash sets must iterate over just
-- what they hold.
pub generate_proposal_stored :
    (pool : Pool.Env) (between : ℕ → List Loop.Event) (name : PublicKey)
    (committee : Config.Committee) (parameters : Config.Parameters) (chain_bound height round : ℕ)
    (qc : Option Qc) (tag : ℕ) (s : State.Core) (block : Block) (d : Digest)
    → Pool.IsHashSet pool
    → (generate_proposal
        (driven pool (new_core pool name committee parameters) between chain_bound)
        height
        round
        qc
        tag
        s).0
      ≡ ok block
    → mem d block.payload ≡ true
    → IsPayload pool d
      × IsFiled pool
          (pool_after pool
            (new_core pool name committee parameters)
            between
            (generate_proposal
              (driven pool (new_core pool name committee parameters) between chain_bound)
              height
              round
              qc
              tag
              s).1.mempool).store
          d
unfolding generate_proposal driven ◌>>=◌ State.modify State.get State.pure Loop.on_event new_block
generate_proposal_stored pool between name committee parameters chain_bound height round qc tag s
      block d hash_set made wanted =
    (
      last_reply-IsPayload pool hash_set start between asked_now s.mempool sound d (
          subst (λ digests. mem d digests ≡ true)
            (received_payload-handed pool hash_set start between
              (last_reply pool start between (asked_now ∷ s.mempool)))
            received),
      IsSound-IsFiled pool [] (pool_after pool start between (asked_now ∷ s.mempool))
          (pool_after-IsSound pool hash_set start between (asked_now ∷ s.mempool) sound) d
          (received_payload-vouched pool hash_set start between (Loop.consensus asked_now)
            (last_reply pool start between (asked_now ∷ s.mempool))
            (pool_after pool start between (asked_now ∷ s.mempool))
            (last_reply-HasAll pool hash_set start between asked_now s.mempool sound) d received),
    )
  where
    payload_in : Outcome Block → List Digest
    payload_in (ok b) = b.payload
    payload_in _ = []

    start : Pool.Core
    start = new_core pool name committee parameters

    sound : IsSound pool [] start
    sound = IsSound-new_core pool hash_set name committee parameters

    asked_now : ConsensusMempoolMessage
    asked_now = get_payload s.parameters.max_payload_size tag

    received :
        mem d (
          received_payload pool start between
            (last_reply pool start between (asked_now ∷ s.mempool)))
        ≡ true
    received = subst (λ digests. mem d digests ≡ true) (sym (ap payload_in made)) wanted

-- With such a mempool, for each digest in the payload of a block that the node was told is present,
-- the store then holds something of this digest under it: a payload, or else a block that the
-- consensus wrote. The hash sets must iterate over just what they hold.
pub mempool_verify_stored :
    (pool : Pool.Env) (between : ℕ → List Loop.Event) (name : PublicKey)
    (committee : Config.Committee) (parameters : Config.Parameters) (chain_bound : ℕ)
    (block : Block) (tag : ℕ) (s : State.Core) (d : Digest)
    → Pool.IsHashSet pool
    → (mempool_verify
        (driven pool (new_core pool name committee parameters) between chain_bound)
        block
        tag
        s).0
      ≡ ok true
    → mem d block.payload ≡ true
    → IsFiled pool
        (pool_after pool
          (new_core pool name committee parameters)
          between
          (mempool_verify
            (driven pool (new_core pool name committee parameters) between chain_bound)
            block
            tag
            s).1.mempool).store
        d
unfolding mempool_verify driven ◌>>=◌ payload_of_status State.get State.modify State.lift
mempool_verify_stored pool between name committee parameters chain_bound block tag s d hash_set
      present wanted =
    IsSound-IsFiled pool [] (pool_after pool start between (verify_payload block tag ∷ s.mempool))
      (pool_after-IsSound pool hash_set start between (verify_payload block tag ∷ s.mempool) sound)
      d
      (last_reply-HasAll pool hash_set start between (verify_payload block tag) s.mempool sound d
        (subst (λ digests. mem d digests ≡ true) (sym same) wanted))
  where
    start : Pool.Core
    start = new_core pool name committee parameters

    sound : IsSound pool [] start
    sound = IsSound-new_core pool hash_set name committee parameters

    reply : Loop.Reply
    reply = last_reply pool start between (verify_payload block tag ∷ s.mempool)

    accepted :
        (status : PayloadStatus)
        → payload_of_status (driven pool start between chain_bound) status ≡ ok true
        → status ≡ accept
    accepted accept e = refl
    accepted reject e = ground arith
    accepted wait e = ground arith

    same : vouched (Loop.consensus (verify_payload block tag)) reply ≡ block.payload
    same =
        received_status-vouched pool hash_set start between block tag reply
          (accepted (received_status pool start between reply) present)
