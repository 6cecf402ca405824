-- ===== src/Mempool/Requests.antt =====
-- The answers of the mempool's core, one by one (mempool/src/core.rs, mempool/src/synchronizer.rs).
use gnosis.Mempool.Error.{
  ok, MempoolResult, MempoolError, err, invalid_signature, unknown_authority, payload_too_big,
}
use gnosis.Messages.{opt, pes, Block}
use gnosis.Mempool.Payload.{Payload, payload_digest, payload_size}
use gnosis.Crypto.{Digest}
use gnosis.Prelude.Map.{
  mem, Map, contains_key, add, mem-add, discard_all, mem-discard_all, mem-take, lookup, insert,
  lookup-insert,
}
use gnosis.Mempool.State.{
  ◌>>=◌, Env, Core, pure, modify, IsHashSet, get, sync, lift, Entry, payload_entry,
}
use gnosis.Prelude.{
  ℕ, List, if◌then◌else◌, length, nat_eqb, take, ◌≤◌, is_empty, ◌≡◌, arith, false, all, ◌&&◌, suc,
  not, ◌∷◌, ◌/◌, zero, true, Bool-cases, [], inl, ◌==◌, inr, ap, nat_eqb_iff, nat_eq, refl, sym,
  ◌∙◌, ◌++◌, some, leb, ◌⊎◌,
}
use gnosis.Mempool.Handlers.{
  get_payload, verify_payload, handle_others_payload, missing_of, store_payload, enqueue,
}
use gnosis.Crypto
use gnosis.Mempool.Config
use gnosis.Error

-- The queue of a tag, and the other.
abbrev pub queue_of : (tag : ℕ) → Core → List Digest
queue_of tag s = if nat_eqb tag opt then s.opt_queue else s.pes_queue

abbrev pub other_queue : (tag : ℕ) → Core → List Digest
other_queue tag s = if nat_eqb tag opt then s.pes_queue else s.opt_queue

length-take : {A : Type 0} (n : ℕ) (xs : List A) → length (take n xs) ≤ n
length-take zero xs = omega arith
length-take (suc n) [] = omega arith
length-take (suc n) (x ∷ xs) = omega (arith, length-take n xs)

-- The queue of a tag is split into the digests handed out and those that stay.
abbrev pub Splits :
    (env : Env) (max tag : ℕ) (s : Core) → MempoolResult (List Digest) × Core → Type 0
Splits env max tag s out =
    (digests : List Digest) × (out.0 ≡ ok digests)
    × (length digests ≤ max / 32)
    × ((d : Digest) → mem d digests ≡ true → mem d (queue_of tag s) ≡ true)
    × ((d : Digest) → mem d (queue_of tag out.1) ≡ mem d (queue_of tag s) && not (mem d digests))
    × (other_queue tag out.1 ≡ other_queue tag s)

module _ (env : Env) (hash_set : IsHashSet env) (max tag : ℕ) (s : Core) where
  handed : List Digest → List Digest
  handed queue = take (max / 32) (env.iter queue)

  mem-handed : (d : Digest) (queue : List Digest) → mem d (handed queue) ≡ true → mem d queue ≡ true
  unfolding handed
  mem-handed d queue h = sym (hash_set.mem-iter d queue) ∙ mem-take (max / 32) d (env.iter queue) h

  left :
      (d : Digest) (queue : List Digest)
      → mem d (discard_all (handed queue) queue) ≡ mem d queue && not (mem d (handed queue))
  left d queue = ground (arith, mem-discard_all (handed queue) d queue)

  get_payload-opt :
      tag ≡ opt
      → is_empty s.opt_queue ≡ false
      → get_payload env max tag s ≡ (
        ok (handed s.opt_queue),
        record s { opt_queue = discard_all (handed s.opt_queue) s.opt_queue },
      )
  unfolding get_payload ◌>>=◌ pure modify get handed
  get_payload-opt is_opt some_left = rw (is_opt, some_left) refl

  get_payload-pes :
      nat_eqb tag opt ≡ false
      → is_empty s.pes_queue ≡ false
      → get_payload env max tag s ≡ (
        ok (handed s.pes_queue),
        record s { pes_queue = discard_all (handed s.pes_queue) s.pes_queue },
      )
  unfolding get_payload ◌>>=◌ pure modify get handed
  get_payload-pes not_opt some_left = elim (Bool-cases (nat_eqb tag pes)) [
    | inl is_pes ↦ rw (not_opt, is_pes, some_left) refl
    | inr not_pes ↦ rw (not_opt, not_pes) refl
  ]

  Splits-get_payload :
      is_empty (queue_of tag s) ≡ false → Splits env max tag s (get_payload env max tag s)
  unfolding handed
  Splits-get_payload some_left = elim (Bool-cases (nat_eqb tag opt)) [
    | inl is_opt ↦
        let to_opt = get_payload-opt ((nat_eqb_iff tag opt).0 is_opt) (rw is_opt at some_left) in
        rw (to_opt, is_opt)
          (
            handed s.opt_queue,
            refl,
            length-take _ (env.iter s.opt_queue),
            (λ d. mem-handed d s.opt_queue),
            (λ d. left d s.opt_queue),
            refl,
          )
    | inr not_opt ↦
        let to_pes = get_payload-pes not_opt (rw not_opt at some_left) in
        rw (to_pes, not_opt)
          (
            handed s.pes_queue,
            refl,
            length-take _ (env.iter s.pes_queue),
            (λ d. mem-handed d s.pes_queue),
            (λ d. left d s.pes_queue),
            refl,
          )
  ]

-- From a queue that is not empty, a request is handed at most as many digests as fit in the bytes
-- it asks for; they are of that queue, and just they leave it; the other queue stays as it is. The
-- hash sets must iterate over just what they hold.
pub get_payload-Splits :
    (env : Env) (max tag : ℕ) (s : Core)
    → IsHashSet env
    → is_empty (queue_of tag s) ≡ false
    → Splits env max tag s (get_payload env max tag s)
get_payload-Splits env max tag s hash_set some_left =
    Splits-get_payload env hash_set max tag s some_left

is_empty-missing_of :
    (env : Env) (digests : List Digest) (store : Map Digest Entry)
    → is_empty (missing_of env digests store) ≡ all (λ d. contains_key d store) digests
unfolding missing_of add mem
is_empty-missing_of env [] store = refl
is_empty-missing_of env (d ∷ digests) store = elim (Bool-cases (contains_key d store)) [
  | inl stored ↦ rw stored (is_empty-missing_of env digests store)
  | inr absent ↦ rw absent (added (missing_of env digests store))
]
  where
    added : (xs : List Digest) → is_empty (add d xs) ≡ false
    added [] = ground arith
    added (x ∷ xs) = ground arith

mem-missing_of :
    (env : Env) (d : Digest) (digests : List Digest) (store : Map Digest Entry)
    → mem d (missing_of env digests store) ≡ mem d digests && not (contains_key d store)
unfolding missing_of mem
mem-missing_of env d [] store = refl
mem-missing_of env d (x ∷ xs) store = elim (Bool-cases (x == d)) [
  | inl same ↦
      let at = ap (λ k. contains_key k store) ((nat_eqb_iff x d).0 same) in
      ground (arith, mem-add x d (missing_of env xs store), mem-missing_of env d xs store, at, same)
  | inr other ↦
      ground (arith, mem-add x d (missing_of env xs store), mem-missing_of env d xs store, other)
]

-- A block is accepted exactly if every digest of its payload is stored, and then nothing changes;
-- if not, the synchronizer is sent the block with just those of its digests that are not stored.
pub verify_payload_lem :
    (env : Env) (block : Block) (tag : ℕ) (s : Core)
    → (missing : List Digest) × (verify_payload env block tag s ≡ (
        if all (λ d. contains_key d s.store) block.payload
        then (ok true, s)
        else (ok false, record s { synchronizer = s.synchronizer ++ sync missing block tag ∷ [] })))
      × ((d : Digest) → mem d missing ≡ mem d block.payload && not (contains_key d s.store))
unfolding verify_payload ◌>>=◌ pure modify get
verify_payload_lem env block tag s =
    (missing_of env block.payload s.store, outcome, λ d. mem-missing_of env d block.payload s.store)
  where
    outcome : verify_payload env block tag s ≡ (
        if all (λ d. contains_key d s.store) block.payload then (ok true, s) else (
          ok false,
          record s {
            synchronizer =
                s.synchronizer ++ sync (missing_of env block.payload s.store) block tag ∷ [];
          },
        ))
    outcome = elim (Bool-cases (all (λ d. contains_key d s.store) block.payload)) [
      | inl complete ↦ rw (is_empty-missing_of env block.payload s.store, complete) refl
      | inr partial ↦ rw (is_empty-missing_of env block.payload s.store, partial) refl
    ]

-- The conditions on the payload of another node: its author is in the committee, it is not larger
-- than the largest payload, and the signature of its digest is valid.
abbrev pub IsAcceptable : Env → Payload → Core → Type 0
IsAcceptable env p s =
    (Config.exists s.committee p.author ≡ true)
    × (leb (payload_size p) s.parameters.max_payload_size ≡ true)
    × (Crypto.verify env.crypto p.signature (payload_digest env.crypto p.author p.transactions)
          p.author
        ≡ Error.ok tt)

-- The payload is refused for a condition that fails, and nothing changes; or it is accepted, stored
-- at its digest, and its digest put in both queues.
abbrev pub Settles : Env → Payload → Core → MempoolResult (Unit {0}) × Core → Type 0
Settles env p s out =
    ((why : MempoolError) × (out ≡ (err why, s)) × (IsAcceptable env p s → ⊥))
    ⊎ (IsAcceptable env p s
        × (out.0 ≡ ok tt)
        × (lookup (payload_digest env.crypto p.author p.transactions) out.1.store
            ≡ some (payload_entry p))
        × (mem (payload_digest env.crypto p.author p.transactions) out.1.opt_queue ≡ true)
        × (mem (payload_digest env.crypto p.author p.transactions) out.1.pes_queue ≡ true))

mem-add_self : (d : Digest) (xs : List Digest) → mem d (add d xs) ≡ true
mem-add_self d xs = ground (arith, mem-add d d xs, nat_eqb_iff d d)

lookup-insert_self :
    (d : Digest) (e : Entry) (m : Map Digest Entry) → lookup d (insert d e m) ≡ some e
lookup-insert_self d e m = ground (arith, lookup-insert d d e m, nat_eqb_iff d d)

-- The payload of another node is refused, and nothing changes; or its author is in the committee,
-- it is not too large and its signature is valid, and then it is accepted, stored at its digest,
-- and its digest is in both queues. It is refused only if one of these conditions fails.
pub handle_others_payload-Settles :
    (env : Env) (p : Payload) (s : Core) → Settles env p s (handle_others_payload env p s)
unfolding handle_others_payload ◌>>=◌ modify get lift store_payload enqueue
handle_others_payload-Settles env p s = elim (Bool-cases (Config.exists s.committee p.author)) [
  | inr stranger ↦
      inl (unknown_authority p.author, rw stranger refl, λ h. ground (arith, h.0, stranger))
  | inl known ↦ elim (Bool-cases (leb (payload_size p) s.parameters.max_payload_size)) [
    | inr big ↦ inl (payload_too_big, rw (known, big) refl, λ h. ground (arith, h.1, big))
    | inl small ↦ checked known small (Crypto.verify env.crypto p.signature d p.author) refl
  ]
]
  where
    d : Digest
    d = payload_digest env.crypto p.author p.transactions

    checked :
        Config.exists s.committee p.author ≡ true
        → leb (payload_size p) s.parameters.max_payload_size ≡ true
        → (v : Error.Outcome (Unit {0})) → Crypto.verify env.crypto p.signature d p.author ≡ v
        → Settles env p s (handle_others_payload env p s)
    checked known small (Error.ok tt) e = inr (
      (known, small, e),
      rw (known, small, e) refl,
      rw (known, small, e) (lookup-insert_self d (payload_entry p) s.store),
      rw (known, small, e) (mem-add_self d s.opt_queue),
      rw (known, small, e) (mem-add_self d s.pes_queue),
    )
    checked known small (Error.err why) e =
        inl (invalid_signature, rw (known, small, e) refl, λ h. ground (arith, h.2, e))
    checked known small Error.panic e =
        inl (invalid_signature, rw (known, small, e) refl, λ h. ground (arith, h.2, e))
    checked known small Error.out_of_fuel e =
        inl (invalid_signature, rw (known, small, e) refl, λ h. ground (arith, h.2, e))
