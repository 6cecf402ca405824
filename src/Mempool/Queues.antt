-- ===== src/Mempool/Queues.antt =====
-- The digests of the queues and of the store (mempool/src/core.rs).
use gnosis.Mempool.Handlers.{store_payload, enqueue, missing_of}
use gnosis.Mempool.Payload.{Payload, payload_digest}
use gnosis.Crypto.{Digest}
use gnosis.Messages.{Block}
use gnosis.Messages.Digests.{block_digest}
use gnosis.Mempool.Loop.{write_block}
use gnosis.Mempool.State.{
  Entry, payload_entry, block_entry, Env, SynchronizerMessage, Core, sync, clean,
}
use gnosis.Prelude.Map.{
  Map, contains_key, lookup, insert, mem, contains_key-insert, mem-add, lookup-insert, discard_all,
  mem-discard_all, add,
}
use gnosis.Prelude.{
  List, ◌≡◌, ◌⊎◌, true, All, arith, inl, ◌∷◌, ◌++◌, some, nat_eq, [], inr, Bool-cases, ◌==◌, sym,
  ◌∙◌, nat_eqb_iff, triple_eq, subst, refl, Option-cases,
}

-- Each digest of the block that is not among the missing is stored.
unfoldable pub Covers : Map Digest Entry → SynchronizerMessage → Type 0
Covers store (sync missing block tag) =
    (d : Digest)
    → mem d block.payload ≡ true
    → (mem d missing ≡ true) ⊎ (contains_key d store ≡ true)
Covers store (clean round) = Unit

-- A store with the payloads of an earlier one.
abbrev pub Extends : Map Digest Entry → Map Digest Entry → Type 0
Extends before after = (d : Digest) → contains_key d before ≡ true → contains_key d after ≡ true

pub Covers-Extends :
    (before after : Map Digest Entry)
    → Extends before after
    → (m : SynchronizerMessage) → Covers before m
    → Covers after m
unfolding Covers
Covers-Extends before after more (sync missing block tag) h =
    λ d wanted. elim (h d wanted) [ inl absent ↦ inl absent | inr stored ↦ inr (more d stored) ]
Covers-Extends before after more (clean round) h = tt

pub All-Extends :
    (before after : Map Digest Entry)
    → Extends before after
    → (ms : List SynchronizerMessage) → All (Covers before) ms
    → All (Covers after) ms
All-Extends before after more [] h = tt
All-Extends before after more (m ∷ ms) h =
    (Covers-Extends before after more m h.0, All-Extends before after more ms h.1)

All-snoc :
    (store : Map Digest Entry) (m : SynchronizerMessage) (ms : List SynchronizerMessage)
    → All (Covers store) ms
    → Covers store m
    → All (Covers store) (ms ++ m ∷ [])
All-snoc store m [] h c = (c, tt)
All-snoc store m (x ∷ ms) h c = (h.0, All-snoc store m ms h.1 c)

-- The digest of what is stored.
unfoldable pub entry_digest : Env → Entry → Digest
entry_digest env (payload_entry p) = payload_digest env.crypto p.author p.transactions
entry_digest env (block_entry b) = block_digest env.crypto b

-- Some payload has the digest.
abbrev pub IsPayload : Env → Digest → Type 0
IsPayload env d = (p : Payload) × (payload_digest env.crypto p.author p.transactions ≡ d)

-- What is in the store under a digest has that digest.
abbrev pub IsFiled : Env → Map Digest Entry → Digest → Type 0
IsFiled env store d = (e : Entry) × (lookup d store ≡ some e) × (entry_digest env e ≡ d)

module _ (env : Env) (before : Map Digest Entry) where
  abbrev pub digest : Payload → Digest
  digest p = payload_digest env.crypto p.author p.transactions

  -- A state with the digests of an earlier one, whose queues hold only stored digests of
  -- payloads, whose store holds each payload and block at its digest, and that waits for what it misses.
  pub record IsSound (s : Core) : Type 0 where
    pub grows : Extends before s.store
    pub keyed : (d : Digest) (e : Entry) → lookup d s.store ≡ some e → entry_digest env e ≡ d
    pub in_opt :
        (d : Digest) → mem d s.opt_queue ≡ true → IsPayload env d × (contains_key d s.store ≡ true)
    pub in_pes :
        (d : Digest) → mem d s.pes_queue ≡ true → IsPayload env d × (contains_key d s.store ≡ true)
    pub asked : All (Covers s.store) s.synchronizer

  abbrev pub Has : Digest → Core → Type 0
  Has d s = contains_key d s.store ≡ true

  pub IsSound-insert :
      (e : Entry) (s : Core)
      → IsSound s
      → IsSound (record s { store = insert (entry_digest env e) e s.store })
        × (contains_key (entry_digest env e) (insert (entry_digest env e) e s.store) ≡ true)
  IsSound-insert e s h = (
    record {
      grows = λ d old. more d (h.grows d old);
      keyed = keyed;
      in_opt = λ d queued. ((h.in_opt d queued).0, more d (h.in_opt d queued).1);
      in_pes = λ d queued. ((h.in_pes d queued).0, more d (h.in_pes d queued).1);
      asked = All-Extends s.store _ more s.synchronizer h.asked;
    },
    ground (arith, contains_key-insert k k e s.store),
  )
    where
      k : Digest
      k = entry_digest env e

      more : Extends s.store (insert k e s.store)
      more d old = ground (arith, contains_key-insert k d e s.store)

      keyed :
          (d : Digest) (f : Entry) → lookup d (insert k e s.store) ≡ some f → entry_digest env f ≡ d
      keyed d f found = elim (Bool-cases (k == d)) [
        | inl same ↦
            let value = sym (rw same at (lookup-insert k d e s.store)) ∙ found in
            let here = (nat_eqb_iff k d).0 same in cc
        | inr other ↦ h.keyed d f (sym (rw other at (lookup-insert k d e s.store)) ∙ found)
      ]

  pub IsSound-store_payload :
      (p : Payload) (s : Core)
      → IsSound s
      → IsSound (store_payload env (digest p) p s)
        × Has (digest p) (store_payload env (digest p) p s)
  unfolding store_payload entry_digest
  IsSound-store_payload p s h = IsSound-insert (payload_entry p) s h

  pub IsSound-write_block :
      (block : Block) (s : Core) → IsSound s → IsSound (write_block env block s)
  unfolding write_block entry_digest
  IsSound-write_block block s h = (IsSound-insert (block_entry block) s h).0

  queued-add :
      (s : Core) (d : Digest) (queue : List Digest)
      → ((j : Digest) → mem j queue ≡ true → IsPayload env j × Has j s)
      → IsPayload env d × Has d s
      → (j : Digest) → mem j (add d queue) ≡ true
      → IsPayload env j × Has j s
  queued-add s d queue old new j queued = elim (Bool-cases (d == j)) [
    | inl same ↦ subst (λ k. IsPayload env k × Has k s) ((nat_eqb_iff d j).0 same) new
    | inr other ↦ old j (ground (arith, other, queued, mem-add d j queue))
  ]

  pub IsSound-enqueue :
      (d : Digest) (s : Core) → IsSound s → IsPayload env d → Has d s → IsSound (enqueue env d s)
  unfolding enqueue
  IsSound-enqueue d s h named has = record {
    grows = h.grows;
    keyed = h.keyed;
    in_opt = queued-add s d s.opt_queue h.in_opt (named, has);
    in_pes = queued-add s d s.pes_queue h.in_pes (named, has);
    asked = h.asked;
  }

  pub IsSound-IsFiled : (s : Core) → IsSound s → (d : Digest) → Has d s → IsFiled env s.store d
  IsSound-IsFiled s h d has = elim (Option-cases (lookup d s.store)) [
    | inl missing ↦ absurd (ground (arith, has, missing))
    | inr (e, found) ↦ (e, found, h.keyed d e found)
  ]

  pub IsSound-discard :
      (o p : List Digest) (s : Core)
      → IsSound s
      → IsSound (record s {
        opt_queue = discard_all o s.opt_queue;
        pes_queue = discard_all p s.pes_queue;
      })
  IsSound-discard o p s h = record {
    grows = h.grows;
    keyed = h.keyed;
    in_opt = λ j queued. h.in_opt j (ground (arith, mem-discard_all o j s.opt_queue));
    in_pes = λ j queued. h.in_pes j (ground (arith, mem-discard_all p j s.pes_queue));
    asked = h.asked;
  }

  pub IsSound-ask :
      (m : SynchronizerMessage) (s : Core)
      → IsSound s
      → Covers s.store m
      → IsSound (record s { synchronizer = s.synchronizer ++ m ∷ [] })
  IsSound-ask m s h covered = record {
    grows = h.grows;
    keyed = h.keyed;
    in_opt = h.in_opt;
    in_pes = h.in_pes;
    asked = All-snoc s.store m s.synchronizer h.asked covered;
  }

  pub mem-missing_of :
      (d : Digest) (digests : List Digest) (store : Map Digest Entry)
      → mem d digests ≡ true
      → (mem d (missing_of env digests store) ≡ true) ⊎ (contains_key d store ≡ true)
  unfolding mem missing_of
  mem-missing_of d [] store wanted = inl wanted
  mem-missing_of d (x ∷ xs) store wanted = elim (Bool-cases (x == d)) [
    | inl same ↦ elim (Bool-cases (contains_key x store)) [
      | inl stored ↦
          inr (subst (λ k. contains_key k store ≡ true) ((nat_eqb_iff x d).0 same) stored)
      | inr absent ↦ inl (rw (absent, mem-add x d (missing_of env xs store), same) refl)
    ]
    | inr other ↦ elim (mem-missing_of d xs store (rw other at wanted)) [
      | inl missing ↦ elim (Bool-cases (contains_key x store)) [
        | inl stored ↦ inl (rw stored missing)
        | inr absent ↦ inl (rw (absent, mem-add x d (missing_of env xs store), other) missing)
      ]
      | inr stored ↦ inr stored
    ]
  ]
