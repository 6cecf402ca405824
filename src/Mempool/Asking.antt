-- ===== src/Mempool/Asking.antt =====
-- What the synchronizer of the mempool asks for (mempool/src/synchronizer.rs).
use gnosis.Messages.Digests.{block_digest}
use gnosis.Config.{SocketAddr}
use gnosis.Messages.{Block}
use gnosis.Prelude.{
  ℕ, List, ◌≡◌, ◌&&◌, if◌then◌else◌, not, true, is_empty, ◌∷◌, ◌++◌, false, Bool-cases, arith, [],
  ◌==◌, refl, nat_eq, inl, ap, nat_eqb_iff, inr, subst, sym,
}
use gnosis.Crypto.{PublicKey, Digest}
use gnosis.Prelude.Map.{mem, Map, contains_key, insert, contains_key-insert}
use gnosis.Mempool.Synchronizer.{
  Task, on_sync, wait_for, request_missing, request_from, unrequested, record_requests,
}
use gnosis.Mempool.State.{Env, IsHashSet, payload_request}
use gnosis.Mempool.Config.{Committee, mempool_address}
use gnosis.Mempool.Error.{ok}

mem-unrequested :
    (d : Digest) (requests : Map Digest (ℕ × ℕ)) (digests : List Digest)
    → mem d (unrequested requests digests) ≡ mem d digests && not (contains_key d requests)
unfolding unrequested mem
mem-unrequested d requests [] = refl
mem-unrequested d requests (x ∷ xs) = elim (Bool-cases (x == d)) [
  | inl same ↦
      let at = ap (λ k. contains_key k requests) ((nat_eqb_iff x d).0 same) in
      ground (arith, mem-unrequested d requests xs, at, same)
  | inr other ↦ ground (arith, mem-unrequested d requests xs, other)
]

contains_key-record_requests :
    (d : Digest) (round now : ℕ) (digests : List Digest) (requests : Map Digest (ℕ × ℕ))
    → contains_key d (record_requests round now digests requests)
      ≡ (if mem d digests then true else contains_key d requests)
unfolding record_requests mem
contains_key-record_requests d round now [] requests = refl
contains_key-record_requests d round now (x ∷ xs) requests = ground (
  arith,
  contains_key-record_requests d round now xs (insert x (round, now) requests),
  contains_key-insert x d (round, now) requests,
)

module _ (env : Env) (name : PublicKey) (committee : Committee) (delay : ℕ) where
  -- What request_missing does, if the author of the block is known.
  request_missing-parts :
      (now : ℕ) (digests : List Digest) (block : Block) (t : Task) (address : SocketAddr)
      → mempool_address committee block.author ≡ ok address
      → let u : Task = request_missing env name committee delay now digests block t in
        (u.pending ≡ t.pending)
        × (u.alive ≡ t.alive)
        × (u.requests ≡ record_requests block.height now digests t.requests)
        × (u.network_channel ≡ (
            if is_empty digests
            then t.network_channel
            else t.network_channel ++ (payload_request digests name, address ∷ []) ∷ []))
  unfolding request_missing request_from record_requests
  request_missing-parts now [] block t address e = (refl, refl, refl, refl)
  request_missing-parts now (d ∷ digests) block t address e = (
    rw (request_missing, request_from, e) refl,
    rw (request_missing, request_from, e) refl,
    rw (request_missing, request_from, e) refl,
    rw (request_missing, request_from, e) refl,
  )

-- A block that is not pending, of an author in the committee, becomes pending, and the task runs
-- on. All its missing payloads are then requested: those that were not requested before are asked
-- of the author, just them and in one message, and if there are none nothing is sent. The hash sets
-- must iterate over just what they hold.
pub on_sync_requests :
    (env : Env) (name : PublicKey) (committee : Committee) (delay now : ℕ) (missing : List Digest)
    (block : Block) (tag : ℕ) (t : Task) (address : SocketAddr)
    → IsHashSet env
    → mempool_address committee block.author ≡ ok address
    → contains_key (block_digest env.crypto block) t.pending ≡ false
    → let u : Task = on_sync env name committee delay now missing block tag t in
      (contains_key (block_digest env.crypto block) u.pending ≡ true)
      × (u.alive ≡ t.alive)
      × ((d : Digest) → mem d missing ≡ true → contains_key d u.requests ≡ true)
      × (digests : List Digest) × ((d : Digest)
          → mem d digests ≡ mem d missing && not (contains_key d t.requests))
      × (u.network_channel ≡ (
          if is_empty digests
          then t.network_channel
          else t.network_channel ++ (payload_request digests name, address ∷ []) ∷ []))
unfolding on_sync wait_for
on_sync_requests env name committee delay now missing block tag t address hash_set e new =
    let (p, a, r, n) =
      request_missing-parts env name committee delay now digests block waiting address e in
    rw new (
      subst (λ m. contains_key (block_digest env.crypto block) m ≡ true) (sym p)
          (entered (block_digest env.crypto block)),
      a,
      (λ d absent. subst (λ m. contains_key d m ≡ true) (sym r) (covered d absent)),
      digests,
      wanted,
      n,
    )
  where
    digests : List Digest
    digests = unrequested t.requests (env.iter missing)

    waiting : Task
    waiting = wait_for env name committee delay missing block tag t

    wanted : (d : Digest) → mem d digests ≡ mem d missing && not (contains_key d t.requests)
    wanted d =
        ground (arith, mem-unrequested d t.requests (env.iter missing), hash_set.mem-iter d missing)

    entered : (k : Digest) → contains_key k (insert k (block.height, t.next_id) t.pending) ≡ true
    entered k =
        ground (arith, contains_key-insert k k (block.height, t.next_id) t.pending, nat_eqb_iff k k)

    covered :
        (d : Digest)
        → mem d missing ≡ true
        → contains_key d (record_requests block.height now digests t.requests) ≡ true
    covered d absent = ground (
      arith,
      contains_key-record_requests d block.height now digests t.requests,
      wanted d,
      absent,
    )
