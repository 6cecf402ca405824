-- ===== src/Mempool/Pending.antt =====
-- The blocks that the synchronizer of the mempool has pending (mempool/src/synchronizer.rs).
use gnosis.Config.{SocketAddr}
use gnosis.Mempool.Error.{MempoolResult, ok, err}
use gnosis.Mempool.Entries.{In-insert, In-without, In-retain_above, without-In, In-remove, held-In}
use gnosis.Messages.{Block, opt, pes}
use gnosis.Mempool.Config.{Committee, mempool_address, Parameters}
use gnosis.Messages.Digests.{block_digest}
use gnosis.Mempool.State.{Env, SynchronizerMessage, sync, clean, payload_request}
use gnosis.Mempool.System.{
  received, stay, then_step, held, System, Step, handled, delivered, Steps, start, dropped,
  cancelled, timed,
}
use gnosis.Prelude.Map.{lookup, insert, Map, contains_key, In-lookup}
use gnosis.Mempool.Synchronizer.{
  without, Waiter, Task, wait_for, on_message, on_sync, on_clean, request_missing, loop_back,
  on_delivered, request_from, on_cancelled, record_requests, on_timer, retransmit, overdue,
}
use gnosis.Prelude.{
  In, ℕ, List, ◌≡◌, ◌∷◌, [], some, Bool-cases, true, arith, ◌==◌, inl, inr, nat_eq, refl, ap, ◌∙◌,
  sym, ◌<◌, ◌+◌, ◌++◌, false, subst, not,
}
use gnosis.Crypto.{Digest, PublicKey}

module _ (env : Env) where
  -- A waiter for a pending block.
  abbrev pub Awaits : Digest → ℕ × ℕ → Waiter → Type 0
  Awaits d e w = (w.id ≡ e.1) × (block_digest env.crypto w.block ≡ d) × (w.block.height ≡ e.0)

  -- The waiters have numbers of their own, and each pending block has a waiter.
  record IsOrdered (waiting : List Waiter) (pending : Map Digest (ℕ × ℕ)) (next_id : ℕ)
      : Type 0 where
    pub ids : (w : Waiter) → In w waiting → w.id < next_id
    pub unique : (v w : Waiter) → In v waiting → In w waiting → v.id ≡ w.id → v ≡ w
    pub awaited :
        (d : Digest) (e : ℕ × ℕ) → In (d, e) pending → (w : Waiter) × In w waiting × Awaits d e w

  abbrev IsTidy : Task → Type 0
  IsTidy t = IsOrdered t.waiting t.pending t.next_id

  module _ (name : PublicKey) (committee : Committee) (delay : ℕ) where
    wait_for-IsTidy :
        (missing : List Digest) (block : Block) (tag : ℕ) (t : Task)
        → IsTidy t
        → IsTidy (wait_for env name committee delay missing block tag t)
    unfolding wait_for In
    wait_for-IsTidy missing block tag t h = record { ids = ids; unique = unique; awaited = awaited }
      where
        new : Waiter
        new = record { id = t.next_id; missing = missing; block = block; tag = tag }

        ids : (w : Waiter) → In w (new ∷ t.waiting) → w.id < t.next_id + 1
        ids w (inl here) = let at = ap (λ v. v.id) here in omega (arith, at)
        ids w (inr later) = omega (arith, h.ids w later)

        fresh : (w : Waiter) → In w t.waiting → w.id ≡ t.next_id → ⊥
        fresh w here at = omega (arith, h.ids w here)

        unique :
            (v w : Waiter) → In v (new ∷ t.waiting) → In w (new ∷ t.waiting) → v.id ≡ w.id → v ≡ w
        unique v w (inl a) (inl b) at = sym a ∙ b
        unique v w (inl a) (inr b) at = elim (fresh w b (sym at ∙ sym (ap (λ v. v.id) a))) [ ]
        unique v w (inr a) (inl b) at = elim (fresh v a (at ∙ sym (ap (λ v. v.id) b))) [ ]
        unique v w (inr a) (inr b) at = h.unique v w a b at

        awaited :
            (d : Digest) (e : ℕ × ℕ)
            → In (d, e) (insert (block_digest env.crypto block) (block.height, t.next_id) t.pending)
            → (w : Waiter) × In w (new ∷ t.waiting) × Awaits d e w
        awaited d e here =
            elim (In-insert d e (block_digest env.crypto block) (block.height, t.next_id) t.pending
              here) [
                | inl at ↦
                    (new, inl refl, (ap (λ p. p.1.1) at, ap (λ p. p.0) at, ap (λ p. p.1.0) at))
                | inr old ↦ let (w, present, awaits) = h.awaited d e old in (w, inr present, awaits)
              ]

    request_missing-IsTidy :
        (now : ℕ) (digests : List Digest) (block : Block) (t : Task)
        → IsTidy t
        → IsTidy (request_missing env name committee delay now digests block t)
    unfolding request_missing request_from
    request_missing-IsTidy now [] block t h = h
    request_missing-IsTidy now (d ∷ digests) block t h =
        requested (mempool_address committee block.author)
      where
        u : Task
        u = record t { requests = record_requests block.height now (d ∷ digests) t.requests }

        requested :
            (r : MempoolResult SocketAddr)
            → IsTidy (elim r [
              | ok address ↦ record u {
                network_channel =
                    u.network_channel ++ (payload_request (d ∷ digests) name, address ∷ []) ∷ [];
              }
              | err why ↦ record u { alive = false }
            ])
        requested (ok address) = h
        requested (err why) = h

    on_message-IsTidy :
        (now : ℕ) (m : SynchronizerMessage) (t : Task)
        → IsTidy t
        → IsTidy (on_message env name committee delay now m t)
    unfolding on_message on_sync on_clean
    on_message-IsTidy now (sync missing block tag) t h =
        elim (Bool-cases (contains_key (block_digest env.crypto block) t.pending)) [
          | inl known ↦ rw known h
          | inr new ↦ rw new (
              request_missing-IsTidy now _ block
                (wait_for env name committee delay missing block tag t)
                (wait_for-IsTidy missing block tag t h))
        ]
    on_message-IsTidy now (clean round) t h = record {
      ids = h.ids;
      unique = h.unique;
      awaited = λ d e here. h.awaited d e (In-retain_above d e round t.pending here);
    }

    loop_back-IsTidy :
        (block : Block) (tag : ℕ) (t : Task)
        → IsTidy t
        → IsTidy (loop_back env name committee delay block tag t)
    unfolding loop_back
    loop_back-IsTidy block tag t h = elim (Bool-cases (tag == opt)) [
      | inl hs ↦ rw hs h
      | inr not_hs ↦ elim (Bool-cases (tag == pes)) [
        | inl par ↦ rw (not_hs, par) h
        | inr fb ↦ rw (not_hs, fb) h
      ]
    ]

    -- A waiter goes whose number is not pending afterwards.
    without-IsOrdered :
        (v : Waiter) (t : Task) (pending : Map Digest (ℕ × ℕ))
        → IsTidy t
        → ((d : Digest) (e : ℕ × ℕ)
            → In (d, e) pending
            → In (d, e) t.pending
              × ((w : Waiter) → In w t.waiting → Awaits d e w → (w.id ≡ v.id) → ⊥))
        → IsOrdered (without v.id t.waiting) pending t.next_id
    without-IsOrdered v t pending h kept = record {
      ids = λ w here. h.ids w (In-without w v.id t.waiting here).0;
      unique = λ u w a b.
          h.unique u w (In-without u v.id t.waiting a).0 (In-without w v.id t.waiting b).0;
      awaited = λ d e here.
          let (old, other) = kept d e here in
          let (w, present, awaits) = h.awaited d e old in
          (w, without-In w v.id t.waiting present (other w present awaits), awaits);
    }

    retransmit-IsTidy :
        (digests : List Digest) (t : Task)
        → IsTidy t
        → IsTidy (retransmit env name committee delay digests t)
    unfolding retransmit
    retransmit-IsTidy [] t h = h
    retransmit-IsTidy (d ∷ digests) t h = h

    Step-IsTidy : {s t : System} → Step env name committee delay s t → IsTidy s.task → IsTidy t.task
    unfolding on_delivered on_cancelled on_timer
    Step-IsTidy (handled e) h = h
    Step-IsTidy (received {s} now m rest alive first) h = on_message-IsTidy now m s.task h
    Step-IsTidy (delivered {s} v alive here is_ready) h = loop_back-IsTidy v.block v.tag _ (
        without-IsOrdered v s.task _ h (λ d e later.
          let (old, other) = In-remove d e (block_digest env.crypto v.block) s.task.pending later in
          (
            old,
            λ w present awaits at. other (
                ap (λ u. block_digest env.crypto u.block) (sym (h.unique w v present here at))
                ∙ awaits.1),
          )))
    Step-IsTidy (dropped {s} v alive here over) h =
        without-IsOrdered v s.task s.task.pending h (λ d e old. (
          old,
          λ w present awaits at.
              let still =
                subst (λ i. held i s.task.pending ≡ true) (sym awaits.0 ∙ at)
                  (held-In d e s.task.pending old) in
              ground (arith, still, over),
        ))
    Step-IsTidy (timed {s} now alive) h =
        retransmit-IsTidy (overdue delay now s.task.requests) s.task h

    Steps-IsTidy :
        {s t : System} → Steps env name committee delay s t → IsTidy s.task → IsTidy t.task
    Steps-IsTidy stay h = h
    Steps-IsTidy (then_step steps step) h = Step-IsTidy step (Steps-IsTidy steps h)

-- Whatever the core and the synchronizer of a mempool do from the start, each block that is pending
-- has a waiter, which carries that block and its height, and which is not cancelled: a block never
-- stays pending with nobody to give it back.
pub pending_waits :
    (env : Env) (name : PublicKey) (committee : Committee) (parameters : Parameters) (delay : ℕ)
    (s : System) (d : Digest) (e : ℕ × ℕ)
    → Steps env name committee delay (start env name committee delay parameters) s
    → lookup d s.task.pending ≡ some e
    → (w : Waiter) × In w s.task.waiting × Awaits env d e w × (cancelled w s.task ≡ false)
unfolding In
pending_waits env name committee parameters delay s d e steps found =
    let entry = In-lookup d e s.task.pending found in
    let tidy = Steps-IsTidy env name committee delay steps (record {
      ids = λ w h. elim h [ ];
      unique = λ v w h. elim h [ ];
      awaited = λ d e h. elim h [ ];
    }) in
    let (w, present, awaits) = tidy.awaited d e entry in
    (
      w,
      present,
      awaits,
      ap not (
          subst (λ i. held i s.task.pending ≡ true) (sym awaits.0)
            (held-In d e s.task.pending entry)),
    )
