-- ===== src/Mempool/Answers.antt =====
-- What the mempool has stored when it answers the consensus (mempool/src/core.rs).
use gnosis.Messages.{Block}
use gnosis.Mempool.Error.{MempoolResult, ok, err}
use gnosis.Mempool.Config.{Committee, Parameters}
use gnosis.Mempool.Triple.{Yields}
use gnosis.Mempool.Handlers.{new_core}
use gnosis.Mempool.Queues.{IsSound, entry_digest, IsSound-write_block, IsPayload}
use gnosis.Mempool.Handled.{
  Quiet, handle_own_payload-Handles, clean_up-Handles, handle_others_payload-Handles,
  handle_request-Handles, HasAll, get_payload-Handles, verify_payload-Handles, HandsOut,
}
use gnosis.Prelude.{
  ◌∷◌, List, [], ◌≡◌, true, arith, nat_eq, ℕ, some, Bool, ◌||◌, false, refl, Bool-cases, inl, inr,
}
use gnosis.Crypto.{Digest, PublicKey}
use gnosis.Prelude.Map.{Map, mem, contains_key, lookup}
use gnosis.Mempool.Loop.{
  Event, Reply, handle_message, handle_consensus, payload_reply, consensus, status_reply, no_reply,
  on_event, run, digests_of, status_of, add_client, message, transaction, write_block, block_stored,
}
use gnosis.Mempool.State.{
  Env, IsHashSet, payload, MempoolMessage, Core, own_payload, payload_request, Entry,
}
use gnosis.Core.State.{verify_payload, get_payload, cleanup, ConsensusMempoolMessage, accept}
use gnosis.Mempool.Handlers

-- What an answer says is stored: the digests of a payload handed out, or of a block accepted.
unfoldable pub vouched : Event → Reply → List Digest
vouched e no_reply = []
vouched e (payload_reply digests) = digests
vouched (consensus (verify_payload block tag)) (status_reply accept) = block.payload
vouched _ (status_reply status) = []

-- The digests that an answer hands out.
unfoldable pub handed_digests : Reply → List Digest
handed_digests (payload_reply digests) = digests
handed_digests _ = []

-- The events' answers, in turn, are true of a store.
unfoldable pub AllBacked : Env → Map Digest Entry → List Event → List Reply → Type 0
AllBacked env store (e ∷ events) (r ∷ replies) =
    ((d : Digest) → mem d (vouched e r) ≡ true → contains_key d store ≡ true)
    × ((d : Digest) → mem d (handed_digests r) ≡ true → IsPayload env d)
    × AllBacked env store events replies
AllBacked env store _ _ = Unit

module _ (env : Env) (hash_set : IsHashSet env) where
  none_vouched : {A : Type 0} (d : Digest) → mem d [] ≡ true → A
  unfolding mem
  none_vouched d h = ground arith

  module _ (before : Map Digest Entry) where
    on_message : (m : MempoolMessage) → Quiet env before (handle_message env m)
    unfolding handle_message
    on_message (own_payload p) = handle_own_payload-Handles env before p
    on_message (payload p) = handle_others_payload-Handles env before p
    on_message (payload_request digests sender) = handle_request-Handles env before digests sender

    handed_out :
        (out : MempoolResult (List Digest) × Core)
        → Yields (HandsOut env before) out.0 out.1
        → HandsOut env before (digests_of env out.0) out.1
    unfolding Yields digests_of
    handed_out (ok digests, s) q = q
    handed_out (err why, s) q = λ d. none_vouched d

    verified :
        (block : Block) (tag : ℕ) (out : MempoolResult Bool × Core)
        → Yields (λ b s. b ≡ true → HasAll env before block.payload s) out.0 out.1
        → HasAll env before
            (vouched (consensus (verify_payload block tag)) (status_reply (status_of env out.0)))
            out.1
    unfolding Yields status_of vouched
    verified block tag (ok true, s) q = q refl
    verified block tag (ok false, s) q = λ d. none_vouched d
    verified block tag (err why, s) q = λ d. none_vouched d

    -- An event keeps the invariant, and its answer is true.
    unfoldable pub Kept : Event → Reply × Core → Type 0
    Kept e out =
        IsSound env before out.1
        × HasAll env before (vouched e out.0) out.1
        × ((d : Digest) → mem d (handed_digests out.0) ≡ true → IsPayload env d)

    handle_consensus-IsSound :
        (m : ConsensusMempoolMessage) (s : Core)
        → IsSound env before s
        → Kept (consensus m) (handle_consensus env m s)
    unfolding handle_consensus vouched handed_digests Kept
    handle_consensus-IsSound (get_payload max tag) s h =
        let (i, q) = (get_payload-Handles env before hash_set max tag).at s h tt in
        let out = handed_out (Handlers.get_payload env max tag s) q in
        (i, (λ d wanted. (out d wanted).1), (λ d wanted. (out d wanted).0))
    handle_consensus-IsSound (verify_payload block tag) s h =
        let (i, q) = (verify_payload-Handles env before hash_set block tag).at s h tt in
        (i, verified block tag (Handlers.verify_payload env block tag s) q, λ d. none_vouched d)
    handle_consensus-IsSound (cleanup digests round) s h = (
      ((clean_up-Handles env before hash_set digests round).at s h tt).0,
      (λ d. none_vouched d),
      (λ d. none_vouched d),
    )

    pub on_event-IsSound : (e : Event) (s : Core) → IsSound env before s → Kept e (on_event env e s)
    unfolding on_event vouched handed_digests Kept add_client write_block
    on_event-IsSound (message m) s h =
        (((on_message m).at s h tt).0, (λ d. none_vouched d), (λ d. none_vouched d))
    on_event-IsSound (consensus m) s h = handle_consensus-IsSound m s h
    on_event-IsSound (transaction tx) s h = (
      record {
        grows = h.grows;
        keyed = h.keyed;
        in_opt = h.in_opt;
        in_pes = h.in_pes;
        asked = h.asked;
      },
      (λ d. none_vouched d),
      (λ d. none_vouched d),
    )
    on_event-IsSound (block_stored block) s h =
        (IsSound-write_block env before block s h, (λ d. none_vouched d), (λ d. none_vouched d))

    pub run-IsSound :
        (events : List Event) (s : Core)
        → IsSound env before s
        → IsSound env before (run env events s).1
    unfolding run
    run-IsSound [] s h = h
    run-IsSound (e ∷ events) s h =
        run-IsSound events (on_event env e s).1 (unfold Kept in (on_event-IsSound e s h).0)

  -- What is stored stays.
  pub IsSound-now :
      (before : Map Digest Entry) (s : Core) → IsSound env before s → IsSound env s.store s
  IsSound-now before s h = record {
    grows = λ d here. here;
    keyed = h.keyed;
    in_opt = h.in_opt;
    in_pes = h.in_pes;
    asked = h.asked;
  }

  run-AllBacked :
      (before : Map Digest Entry) (events : List Event) (s : Core)
      → IsSound env before s
      → AllBacked env (run env events s).1.store events (run env events s).0
  unfolding run AllBacked Kept
  run-AllBacked before [] s h = tt
  run-AllBacked before (e ∷ events) s h =
      let (i, q, named) = on_event-IsSound before e s h in
      let s' : Core = (on_event env e s).1 in
      let later = (run-IsSound s'.store events s' (IsSound-now before s' i)).grows in
      ((λ d wanted. later d (q d wanted)), named, run-AllBacked before events s' i)

  pub IsSound-new_core :
      (name : PublicKey) (committee : Committee) (parameters : Parameters)
      → IsSound env [] (new_core env name committee parameters)
  unfolding new_core lookup mem
  IsSound-new_core name committee parameters = record {
    grows = λ d h. h;
    keyed = λ d p h. ground arith;
    in_opt = λ d h. none_vouched d h;
    in_pes = λ d h. none_vouched d h;
    asked = tt;
  }

-- In every run of a fresh core, whatever arrives and in whatever order, each digest of a payload
-- handed out to the consensus, and each digest of a block accepted, is in the store, which the
-- consensus writes blocks to at any time; the store holds each payload and each block at its own
-- digest; and the digests that still wait in the two queues are stored. Those handed out are digests
-- of payloads. The hash sets must iterate over just what they hold.
pub run-payloads_stored :
    (env : Env) (events : List Event) (name : PublicKey) (committee : Committee)
    (parameters : Parameters)
    → IsHashSet env
    → AllBacked env
        (run env events (new_core env name committee parameters)).1.store
        events
        (run env events (new_core env name committee parameters)).0
      × ((d : Digest) (e : Entry)
          → lookup d (run env events (new_core env name committee parameters)).1.store ≡ some e
          → entry_digest env e ≡ d)
      × ((d : Digest)
          → mem d (run env events (new_core env name committee parameters)).1.opt_queue
              || mem d (run env events (new_core env name committee parameters)).1.pes_queue
            ≡ true
          → contains_key d (run env events (new_core env name committee parameters)).1.store ≡ true)
run-payloads_stored env events name committee parameters hash_set =
    let start = IsSound-new_core env hash_set name committee parameters in
    let reached : Core = (run env events (new_core env name committee parameters)).1 in
    let end = run-IsSound env hash_set [] events (new_core env name committee parameters) start in
    (
      run-AllBacked env hash_set [] events (new_core env name committee parameters) start,
      end.keyed,
      λ d queued. elim (Bool-cases (mem d reached.opt_queue)) [
        | inl in_opt ↦ (end.in_opt d in_opt).1
        | inr not_in_opt ↦ (end.in_pes d (ground (arith, queued, not_in_opt))).1
      ],
    )
