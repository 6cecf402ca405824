-- ===== src/Tests/Asking.antt =====
-- An example about what the synchronizer of the mempool asks for.
use gnosis.Mempool.State.{payload_request}
use gnosis.Crypto.{Digest}
use gnosis.Messages.{opt}
use gnosis.Messages.Digests.{block_digest}
use gnosis.Prelude.{
  ◌∷◌, ◌≡◌, [], refl, false, true, nat_eq, List, ◌&&◌, not, if◌then◌else◌, is_empty, ◌++◌,
}
use gnosis.Prelude.Map.{lookup, contains_key, mem}
use gnosis.Tests.Toy.{toy}
use gnosis.Tests.Pool.{pool, two, wanting, pool-IsHashSet}
use gnosis.Mempool.Config
use gnosis.Mempool.Error.{ok}
use gnosis.Mempool.Synchronizer.{Task, new_task, on_sync}
use gnosis.Mempool.Asking.{on_sync_requests}

author_known : Config.mempool_address two wanting.author ≡ ok 42
unfolding Config.mempool_address lookup
author_known = refl

not_pending : contains_key (block_digest toy wanting) new_task.pending ≡ false
unfolding lookup
not_pending = refl

on_sync_requests_example :
    let u : Task = on_sync pool 1 two 100 9 (5 ∷ []) wanting opt new_task in
    (contains_key (block_digest toy wanting) u.pending ≡ true)
    × (u.alive ≡ new_task.alive)
    × ((d : Digest) → mem d (5 ∷ []) ≡ true → contains_key d u.requests ≡ true)
    × (digests : List Digest) × ((d : Digest)
        → mem d digests ≡ mem d (5 ∷ []) && not (contains_key d new_task.requests))
    × (u.network_channel ≡ (
        if is_empty digests
        then new_task.network_channel
        else new_task.network_channel ++ (payload_request digests 1, 42 ∷ []) ∷ []))
on_sync_requests_example =
    on_sync_requests pool 1 two 100 9 (5 ∷ []) wanting opt new_task 42 pool-IsHashSet author_known
      not_pending
