-- ===== src/Synchronizer/Parents.antt =====
-- The parents that the synchronizer of the consensus waits for (consensus/src/synchronizer.rs).
use gnosis.Messages.Digests.{block_digest}
use gnosis.Config.{Committee, broadcast_addresses, SocketAddr}
use gnosis.Messages.{Block, ConsensusMessage, parent, hs_loop_back, sync_request}
use gnosis.Prelude.{
  In, ℕ, All, List, Bool-cases, subst, ◌≡◌, true, ◌∷◌, sym, if◌then◌else◌, ◌⊎◌, inr, ◌==◌, ltb,
  arith, ◌++◌, nat_eq, suc, false, inl, [], ◌+◌, zero, nat_eqb_iff, refl, ◌<◌, ap, some,
  Option-cases, ◌∙◌,
}
use mathlib.Core.List.{append_assoc, append-nil}
use gnosis.Crypto.{Digest, Crypto, PublicKey}
use gnosis.Prelude.Map.{
  Map, contains_key, remove, insert, mem, contains_key-insert, lookup-remove, lookup, In-lookup,
}
use gnosis.Synchronizer.{
  Task, System, Step, Steps, stored, received, delivered, timed, stay, then_step, remove_at,
  on_block, request_parent, broadcast, on_delivered, on_timer, retry, start,
}

-- A message that gives back a block whose parent is stored.
abbrev pub LoopsBack : Map Digest Block → ConsensusMessage → Type 0
LoopsBack store m = (b : Block) × (m ≡ hs_loop_back b) × (contains_key (parent b) store ≡ true)

-- The parent of a block that waits is stored or requested.
abbrev Sought : Map Digest Block → Map Digest ℕ → Block → Type 0
Sought store requests b =
    (contains_key (parent b) store ≡ true) ⊎ (contains_key (parent b) requests ≡ true)

record IsFaithful (store : Map Digest Block) (t : Task) : Type 0 where
  pub sent : All (LoopsBack store) t.core_channel
  pub sought : (b : Block) → In b t.waiting → Sought store t.requests b

In-remove_at : (b : Block) (i : ℕ) (bs : List Block) → In b (remove_at i bs) → In b bs
unfolding In remove_at
In-remove_at b i [] h = h
In-remove_at b zero (x ∷ bs) h = inr h
In-remove_at b (suc i) (x ∷ bs) (inl here) = inl here
In-remove_at b (suc i) (x ∷ bs) (inr later) = inr (In-remove_at b i bs later)

contains_key-remove :
    {V : Type 0} (k j : Digest) (m : Map Digest V)
    → contains_key j (remove k m) ≡ (if k == j then false else contains_key j m)
contains_key-remove k j m = ground (arith, lookup-remove k j m)

module _ (crypto : Crypto) (name : PublicKey) (committee : Committee) (delay : ℕ) where
  retry-same :
      (now : ℕ) (requests : Map Digest ℕ) (t : Task)
      → ((retry crypto name committee delay now requests t).waiting ≡ t.waiting)
        × ((retry crypto name committee delay now requests t).core_channel ≡ t.core_channel)
        × ((retry crypto name committee delay now requests t).requests ≡ t.requests)
  unfolding retry broadcast
  retry-same now [] t = (refl, refl, refl)
  retry-same now (e ∷ requests) t = elim (Bool-cases (ltb (e.1 + delay) now)) [
    | inl late ↦
        rw (late, retry)
          (retry-same now requests
            (broadcast crypto name committee delay (sync_request e.0 name) t))
    | inr early ↦ rw (early, retry) (retry-same now requests t)
  ]

  on_block-IsFaithful :
      (store : Map Digest Block) (now : ℕ) (block : Block) (t : Task)
      → IsFaithful store t
      → IsFaithful store (on_block crypto name committee delay now block t)
  unfolding on_block request_parent broadcast In
  on_block-IsFaithful store now block t h =
      elim (Bool-cases (mem (block_digest crypto block) t.pending)) [
        | inl known ↦ rw known h
        | inr new ↦ elim (Bool-cases (contains_key (parent block) t.requests)) [
          | inl requested ↦
              rw (new, requested)
                (record {
                  sent = h.sent;
                  sought = λ b. elim [
                    | inl here ↦
                        inr (subst (λ x. contains_key (parent x) t.requests ≡ true) here requested)
                    | inr later ↦ h.sought b later
                  ];
                })
          | inr absent ↦
              rw (new, absent)
                (record {
                  sent = h.sent;
                  sought = λ b. elim [
                    | inl here ↦ inr (
                        subst
                          (λ x.
                            contains_key (parent x) (insert (parent block) now t.requests) ≡ true)
                          here
                          (ground (
                            arith,
                            contains_key-insert (parent block) (parent block) now t.requests,
                            nat_eqb_iff (parent block) (parent block),
                          )))
                    | inr later ↦ elim (h.sought b later) [
                      | inl known ↦ inl known
                      | inr asked ↦ inr (
                          ground (
                            arith,
                            asked,
                            contains_key-insert (parent block) (parent b) now t.requests,
                          ))
                    ]
                  ];
                })
        ]
      ]

  on_delivered-IsFaithful :
      (store : Map Digest Block) (i : ℕ) (block : Block) (t : Task)
      → contains_key (parent block) store ≡ true
      → IsFaithful store t
      → IsFaithful store (on_delivered crypto name committee delay i block t)
  unfolding on_delivered
  on_delivered-IsFaithful store i block t here h = record {
    sent = All-append t.core_channel h.sent;
    sought = λ b left. elim (h.sought b (In-remove_at b i t.waiting left)) [
      | inl known ↦ inl known
      | inr asked ↦ elim (Bool-cases (parent block == parent b)) [
        | inl same ↦ inl (
            subst (λ d. contains_key d store ≡ true)
              ((nat_eqb_iff (parent block) (parent b)).0 same) here)
        | inr other ↦
            inr (
              ground
                (arith, asked, other, contains_key-remove (parent block) (parent b) t.requests))
      ]
    ];
  }
    where
      All-append :
          (ms : List ConsensusMessage)
          → All (LoopsBack store) ms
          → All (LoopsBack store) (ms ++ hs_loop_back block ∷ [])
      All-append [] a = ((block, refl, here), tt)
      All-append (m ∷ ms) a = (a.0, All-append ms a.1)

  stored-IsFaithful :
      (store : Map Digest Block) (d : Digest) (block : Block) (t : Task)
      → IsFaithful store t
      → IsFaithful (insert d block store) t
  stored-IsFaithful store d block t h = record {
    sent = kept t.core_channel h.sent;
    sought = λ b waits. elim (h.sought b waits) [
      | inl known ↦ inl (more (parent b) known)
      | inr asked ↦ inr asked
    ];
  }
    where
      more :
          (k : Digest) → contains_key k store ≡ true → contains_key k (insert d block store) ≡ true
      more k known = ground (arith, known, contains_key-insert d k block store)

      kept :
          (ms : List ConsensusMessage)
          → All (LoopsBack store) ms
          → All (LoopsBack (insert d block store)) ms
      kept [] a = tt
      kept (m ∷ ms) a = ((a.0.0, a.0.1, more (parent a.0.0) a.0.2), kept ms a.1)

  Steps-IsFaithful :
      {s t : System}
      → Steps crypto name committee delay s t
      → IsFaithful s.store s.task
      → IsFaithful t.store t.task
  unfolding on_timer
  Steps-IsFaithful stay h = h
  Steps-IsFaithful (then_step {t} steps step) h = moved step (Steps-IsFaithful steps h)
    where
      moved :
          {t u : System}
          → Step crypto name committee delay t u
          → IsFaithful t.store t.task
          → IsFaithful u.store u.task
      moved (stored {s} d block) i = stored-IsFaithful s.store d block s.task i
      moved (received {s} now block) i = on_block-IsFaithful s.store now block s.task i
      moved (delivered {s} k block at here) i =
          on_delivered-IsFaithful s.store k block s.task here i
      moved (timed {s} now) i =
          let (w, c, r) = retry-same now s.task.requests s.task in
          record {
            sent = subst (All (LoopsBack s.store)) (sym c) i.sent;
            sought = λ b waits.
                subst (λ m. Sought s.store m b) (sym r) (i.sought b (subst (In b) w waits));
          }

  -- The requests of a round of the timer, for the overdue parents.
  resent : (now : ℕ) → Map Digest ℕ → List (ConsensusMessage × List SocketAddr)
  resent now [] = []
  resent now (e ∷ requests) =
      let rest = resent now requests in
      if ltb (e.1 + delay) now
      then (sync_request e.0 name, broadcast_addresses committee name) ∷ rest
      else rest

  -- A round of the timer sends just these, after what was sent before.
  retry-resent :
      (now : ℕ) (requests : Map Digest ℕ) (t : Task)
      → (retry crypto name committee delay now requests t).network_filter
        ≡ t.network_filter ++ resent now requests
  unfolding retry broadcast resent
  retry-resent now [] t = sym (append-nil t.network_filter)
  retry-resent now (e ∷ requests) t = elim (Bool-cases (ltb (e.1 + delay) now)) [
    | inl late ↦
        rw (late, retry)
          (retry-resent now requests
              (broadcast crypto name committee delay (sync_request e.0 name) t)
            ∙ append_assoc t.network_filter
                ((sync_request e.0 name, broadcast_addresses committee name) ∷ [])
                (resent now requests))
    | inr early ↦ rw (early, retry) (retry-resent now requests t)
  ]

  In-resent :
      (now : ℕ) (d : Digest) (since : ℕ) (requests : Map Digest ℕ)
      → In (d, since) requests
      → since + delay < now
      → In (sync_request d name, broadcast_addresses committee name) (resent now requests)
  unfolding In resent
  In-resent now d since [] h late = elim h [ ]
  In-resent now d since (e ∷ requests) (inl here) late =
      let overdue : ltb (e.1 + delay) now ≡ true = ground (arith, ap (λ x. x.1) here, late) in
      rw overdue (
        inl (
          ap (λ k. (sync_request k name, broadcast_addresses committee name)) (ap (λ x. x.0) here)))
  In-resent now d since (e ∷ requests) (inr later) late =
      elim (Bool-cases (ltb (e.1 + delay) now)) [
        | inl overdue ↦ rw overdue (inr (In-resent now d since requests later late))
        | inr early ↦ rw early (In-resent now d since requests later late)
      ]

-- The parent of a block was requested at a time, and each round of the timer later than the delay
-- after that sends, after all that was sent before, messages with the request to all others.
abbrev pub Retried : Crypto → PublicKey → Committee → (delay : ℕ) → Task → Digest → Type 0
Retried crypto name committee delay t d =
    (since : ℕ) × (lookup d t.requests ≡ some since)
    × ((now : ℕ)
        → since + delay < now
        → (sent : List (ConsensusMessage × List SocketAddr)) × ((on_timer crypto name committee
              delay now t).network_filter
            ≡ t.network_filter ++ sent)
          × In (sync_request d name, broadcast_addresses committee name) sent)

-- Whatever happens to the task and the store, in whatever order, from a fresh task on: each block
-- that the task gives back has its parent in the store; and the parent of a block that waits is in
-- the store, or it was requested, and each round of the timer later than the delay after that sends
-- a new request for it to all others.
pub parents_sought :
    (crypto : Crypto) (name : PublicKey) (committee : Committee) (delay : ℕ)
    (store : Map Digest Block) (s : System)
    → Steps crypto name committee delay (start store) s
    → All (LoopsBack s.store) s.task.core_channel
      × ((b : Block)
          → In b s.task.waiting
          → (contains_key (parent b) s.store ≡ true)
            ⊎ Retried crypto name committee delay s.task (parent b))
unfolding on_timer In
parents_sought crypto name committee delay store s steps =
    let end =
      Steps-IsFaithful crypto name committee delay steps
        (record { sent = tt; sought = λ b h. elim h [ ] }) in
    (
      end.sent,
      λ b waits. elim (end.sought b waits) [
        | inl known ↦ inl known
        | inr asked ↦ elim (Option-cases (lookup (parent b) s.task.requests)) [
          | inl missing ↦ inl (ground (arith, asked, missing))
          | inr (since, found) ↦ inr (
            since,
            found,
            λ now late. (
              resent crypto name committee delay now s.task.requests,
              retry-resent crypto name committee delay now s.task.requests s.task,
              In-resent crypto name committee delay now (parent b) since s.task.requests
                  (In-lookup (parent b) since s.task.requests found) late,
            ),
          )
        ]
      ],
    )
