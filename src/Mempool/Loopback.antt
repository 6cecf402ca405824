-- ===== src/Mempool/Loopback.antt =====
-- The blocks that the synchronizer of the mempool gives back (mempool/src/synchronizer.rs).
use gnosis.Messages.Digests.{block_digest}
use gnosis.Config.{SocketAddr}
use gnosis.Mempool.Error.{MempoolResult, ok, err}
use gnosis.Mempool.Queues.{Covers, Extends, Covers-Extends, IsSound}
use gnosis.Mempool.Config.{Committee, mempool_address, Parameters}
use gnosis.Crypto.{Digest, PublicKey}
use gnosis.Mempool.State.{Env, sync, SynchronizerMessage, payload_request, clean, IsHashSet, Entry}
use gnosis.Mempool.Answers.{Kept, on_event-IsSound, IsSound-now, IsSound-new_core}
use gnosis.Mempool.System.{
  received, stay, ready, System, Step, handled, Steps, then_step, start, delivered, dropped, timed,
}
use gnosis.Mempool.Synchronizer.{
  without, Waiter, Task, request_missing, on_message, loop_back, request_from, on_sync,
  record_requests, on_clean, wait_for, on_delivered, on_cancelled, on_timer, retransmit, overdue,
}
use gnosis.Prelude.{
  List, Option, All, ◌∷◌, ◌++◌, ℕ, [], ◌≡◌, Bool-cases, inl, all, some, ◌==◌, subst, true, inr, sym,
  nat_eq, none, refl, false, arith, nat_eqb_iff, All-In,
}
use gnosis.Prelude.Map.{Map, mem, contains_key}
use gnosis.Messages.{ConsensusMessage, Block, hs_loop_back, par_loop_back, fb_loop_back, opt, pes}

-- The block of a message that gives one back.
unfoldable pub given_back : ConsensusMessage → Option Block
given_back (hs_loop_back b) = some b
given_back (par_loop_back b) = some b
given_back (fb_loop_back b) = some b
given_back _ = none

-- A message that gives a block back, whose digests are stored.
abbrev pub LoopsBack : Map Digest Entry → ConsensusMessage → Type 0
LoopsBack store m =
    (b : Block) × (given_back m ≡ some b)
    × ((d : Digest) → mem d b.payload ≡ true → contains_key d store ≡ true)

-- A waiter waits for what its block misses.
abbrev WaitsFor : Map Digest Entry → Waiter → Type 0
WaitsFor store w = Covers store (sync w.missing w.block w.tag)

All-map :
    {A : Type 0} (P Q : A → Type 0) (xs : List A) → ((x : A) → P x → Q x) → All P xs → All Q xs
All-map P Q [] f h = tt
All-map P Q (x ∷ xs) f h = (f x h.0, All-map P Q xs f h.1)

All-append :
    {A : Type 0} (P : A → Type 0) (xs : List A) (x : A) → All P xs → P x → All P (xs ++ x ∷ [])
All-append P [] x h p = (p, tt)
All-append P (y ∷ xs) x h p = (h.0, All-append P xs x h.1 p)

All-without : (P : Waiter → Type 0) (id : ℕ) (ws : List Waiter) → All P ws → All P (without id ws)
unfolding without
All-without P id [] h = tt
All-without P id (w ∷ ws) h = elim (Bool-cases (w.id == id)) [
  | inl same ↦ rw same (All-without P id ws h.1)
  | inr other ↦ rw other (h.0, All-without P id ws h.1)
]

LoopsBack-Extends :
    (before after : Map Digest Entry)
    → Extends before after
    → (m : ConsensusMessage) → LoopsBack before m
    → LoopsBack after m
LoopsBack-Extends before after more m h = (h.0, h.1, λ d wanted. more d (h.2 d wanted))

-- The task's waiters wait for what is missing, and what it gave back was complete.
record IsFaithful (store : Map Digest Entry) (t : Task) : Type 0 where
  pub waiters : All (WaitsFor store) t.waiting
  pub sent : All (LoopsBack store) t.consensus_channel
  pub sent_smvba : All (LoopsBack store) t.consensus_channel_smvba

-- An update of other parts.
IsFaithful-same :
    (store : Map Digest Entry) (t u : Task)
    → u.waiting ≡ t.waiting
    → u.consensus_channel ≡ t.consensus_channel
    → u.consensus_channel_smvba ≡ t.consensus_channel_smvba
    → IsFaithful store t
    → IsFaithful store u
IsFaithful-same store t u w c m h = record {
  waiters = subst (All (WaitsFor store)) (sym w) h.waiters;
  sent = subst (All (LoopsBack store)) (sym c) h.sent;
  sent_smvba = subst (All (LoopsBack store)) (sym m) h.sent_smvba;
}

IsFaithful-Extends :
    (before after : Map Digest Entry) (t : Task)
    → Extends before after
    → IsFaithful before t
    → IsFaithful after t
IsFaithful-Extends before after t more h = record {
  waiters =
      All-map (WaitsFor before) (WaitsFor after) t.waiting
        (λ w. Covers-Extends before after more (sync w.missing w.block w.tag)) h.waiters;
  sent =
      All-map (LoopsBack before) (LoopsBack after) t.consensus_channel
        (LoopsBack-Extends before after more) h.sent;
  sent_smvba =
      All-map (LoopsBack before) (LoopsBack after) t.consensus_channel_smvba
        (LoopsBack-Extends before after more) h.sent_smvba;
}

module _ (env : Env) (name : PublicKey) (committee : Committee) (delay : ℕ)
    (store : Map Digest Entry) where
  request_missing-IsFaithful :
      (now : ℕ) (digests : List Digest) (block : Block) (t : Task)
      → IsFaithful store t
      → IsFaithful store (request_missing env name committee delay now digests block t)
  unfolding request_missing request_from
  request_missing-IsFaithful now [] block t h = h
  request_missing-IsFaithful now (d ∷ digests) block t h =
      requested (mempool_address committee block.author)
    where
      u : Task
      u = record t { requests = record_requests block.height now (d ∷ digests) t.requests }

      requested :
          (r : MempoolResult SocketAddr)
          → IsFaithful store (elim r [
            | ok address ↦ record u {
              network_channel =
                  u.network_channel ++ (payload_request (d ∷ digests) name, address ∷ []) ∷ [];
            }
            | err why ↦ record u { alive = false }
          ])
      requested (ok address) = record {
        waiters = h.waiters;
        sent = h.sent;
        sent_smvba = h.sent_smvba;
      }
      requested (err why) = record { waiters = h.waiters; sent = h.sent; sent_smvba = h.sent_smvba }

  on_message-IsFaithful :
      (now : ℕ) (m : SynchronizerMessage) (t : Task)
      → Covers store m
      → IsFaithful store t
      → IsFaithful store (on_message env name committee delay now m t)
  unfolding on_message on_sync on_clean wait_for
  on_message-IsFaithful now (sync missing block tag) t covered h =
      elim (Bool-cases (contains_key (block_digest env.crypto block) t.pending)) [
        | inl known ↦ rw known h
        | inr new ↦ rw new (
            request_missing-IsFaithful now _ block
              (wait_for env name committee delay missing block tag t)
              (record { waiters = (covered, h.waiters); sent = h.sent; sent_smvba = h.sent_smvba }))
      ]
  on_message-IsFaithful now (clean round) t covered h = record {
    waiters = h.waiters;
    sent = h.sent;
    sent_smvba = h.sent_smvba;
  }

  loop_back-IsFaithful :
      (block : Block) (tag : ℕ) (t : Task)
      → ((d : Digest) → mem d block.payload ≡ true → contains_key d store ≡ true)
      → IsFaithful store t
      → IsFaithful store (loop_back env name committee delay block tag t)
  unfolding loop_back given_back
  loop_back-IsFaithful block tag t complete h = elim (Bool-cases (tag == opt)) [
    | inl hs ↦ rw hs (record {
      waiters = h.waiters;
      sent = All-append (LoopsBack store) _ (hs_loop_back block) h.sent (block, refl, complete);
      sent_smvba = h.sent_smvba;
    })
    | inr not_hs ↦ elim (Bool-cases (tag == pes)) [
      | inl par ↦
          rw (not_hs, par)
            (record {
              waiters = h.waiters;
              sent = h.sent;
              sent_smvba =
                  All-append (LoopsBack store) _ (par_loop_back block) h.sent_smvba
                    (block, refl, complete);
            })
      | inr fb ↦
          rw (not_hs, fb)
            (record {
              waiters = h.waiters;
              sent = h.sent;
              sent_smvba =
                  All-append (LoopsBack store) _ (fb_loop_back block) h.sent_smvba
                    (block, refl, complete);
            })
    ]
  ]

  mem-ready :
      (d : Digest) (missing : List Digest)
      → all (λ d. contains_key d store) missing ≡ true
      → mem d missing ≡ true
      → contains_key d store ≡ true
  unfolding mem
  mem-ready d [] h wanted = ground arith
  mem-ready d (x ∷ xs) h wanted = elim (Bool-cases (x == d)) [
    | inl same ↦ subst (λ k. contains_key k store ≡ true) ((nat_eqb_iff x d).0 same) (ground arith)
    | inr other ↦ mem-ready d xs (ground arith) (rw other at wanted)
  ]

  complete :
      (w : Waiter)
      → WaitsFor store w
      → ready w store ≡ true
      → (d : Digest) → mem d w.block.payload ≡ true
      → contains_key d store ≡ true
  unfolding Covers
  complete w waits is_ready d wanted = elim (waits d wanted) [
    | inl missing ↦ mem-ready d w.missing is_ready missing
    | inr stored ↦ stored
  ]

module _ (env : Env) (hash_set : IsHashSet env) (name : PublicKey) (committee : Committee)
    (delay : ℕ) where
  record IsCoherent (s : System) : Type 0 where
    pub sound : IsSound env [] s.core
    pub faithful : IsFaithful s.core.store s.task

  on_timer-same :
      (now : ℕ) (t : Task)
      → ((on_timer env name committee delay now t).waiting ≡ t.waiting)
        × ((on_timer env name committee delay now t).consensus_channel ≡ t.consensus_channel)
        × ((on_timer env name committee delay now t).consensus_channel_smvba
            ≡ t.consensus_channel_smvba)
  unfolding on_timer
  on_timer-same now t = sent (overdue delay now t.requests)
    where
      sent :
          (digests : List Digest)
          → ((retransmit env name committee delay digests t).waiting ≡ t.waiting)
            × ((retransmit env name committee delay digests t).consensus_channel
                ≡ t.consensus_channel)
            × ((retransmit env name committee delay digests t).consensus_channel_smvba
                ≡ t.consensus_channel_smvba)
      sent [] = (refl, refl, refl)
      sent (d ∷ digests) = (refl, refl, refl)

  Step-IsCoherent : {s t : System} → Step env name committee delay s t → IsCoherent s → IsCoherent t
  unfolding on_delivered on_cancelled on_timer Kept
  Step-IsCoherent (handled {s} e) h = record {
    sound = (on_event-IsSound env hash_set [] e s.core h.sound).0;
    faithful =
        IsFaithful-Extends s.core.store _ s.task
          (on_event-IsSound env hash_set s.core.store e s.core
            (IsSound-now env hash_set [] s.core h.sound)).0.grows
          h.faithful;
  }
  Step-IsCoherent (received {s} now m rest alive first) h =
      let asked = subst (All (Covers s.core.store)) first h.sound.asked in
      record {
        sound = record {
          grows = h.sound.grows;
          keyed = h.sound.keyed;
          in_opt = h.sound.in_opt;
          in_pes = h.sound.in_pes;
          asked = asked.1;
        };
        faithful =
            on_message-IsFaithful env name committee delay s.core.store now m s.task asked.0
              h.faithful;
      }
  Step-IsCoherent (delivered {s} w alive here is_ready) h =
      let f = h.faithful in
      record {
        sound = h.sound;
        faithful =
            loop_back-IsFaithful env name committee delay s.core.store w.block w.tag _
              (complete env name committee delay s.core.store w
                (All-In _ w s.task.waiting f.waiters here) is_ready)
              (record {
                waiters = All-without _ w.id s.task.waiting f.waiters;
                sent = f.sent;
                sent_smvba = f.sent_smvba;
              });
      }
  Step-IsCoherent (dropped {s} w alive here over) h = record {
    sound = h.sound;
    faithful = record {
      waiters = All-without _ w.id s.task.waiting h.faithful.waiters;
      sent = h.faithful.sent;
      sent_smvba = h.faithful.sent_smvba;
    };
  }
  Step-IsCoherent (timed {s} now alive) h = record {
    sound = h.sound;
    faithful =
        IsFaithful-same s.core.store s.task _ (on_timer-same now s.task).0
          (on_timer-same now s.task).1 (on_timer-same now s.task).2 h.faithful;
  }

  Steps-IsCoherent :
      {s t : System} → Steps env name committee delay s t → IsCoherent s → IsCoherent t
  Steps-IsCoherent stay h = h
  Steps-IsCoherent (then_step steps step) h = Step-IsCoherent step (Steps-IsCoherent steps h)

-- Whatever the core and the synchronizer of a mempool do from the start, in whatever order, a
-- message of the synchronizer to the consensus gives back a block all of whose digests are in the
-- store, which the consensus writes blocks to at any time. The hash sets must iterate over just what they hold.
pub looped_back_stored :
    (env : Env) (name : PublicKey) (committee : Committee) (parameters : Parameters) (delay : ℕ)
    (s : System)
    → IsHashSet env
    → Steps env name committee delay (start env name committee delay parameters) s
    → All (LoopsBack s.core.store) s.task.consensus_channel
      × All (LoopsBack s.core.store) s.task.consensus_channel_smvba
looped_back_stored env name committee parameters delay s hash_set steps =
    let end = Steps-IsCoherent env hash_set name committee delay steps (record {
      sound = IsSound-new_core env hash_set name committee parameters;
      faithful = record { waiters = tt; sent = tt; sent_smvba = tt };
    }) in
    (end.faithful.sent, end.faithful.sent_smvba)
