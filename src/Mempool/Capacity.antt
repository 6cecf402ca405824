-- ===== src/Mempool/Capacity.antt =====
-- The sizes of the queues of the mempool's core (mempool/src/core.rs).
use gnosis.Mempool.Error.{ensure, mempool_full, ok}
use gnosis.Mempool.Payload.{Payload}
use gnosis.Prelude.{
  ℕ, List, length, ◌≤◌, ◌≡◌, ◌<◌, arith, ◌+◌, ◌∙◌, Bool-cases, inl, inr, nat_eq, subst, ltb, sym,
  ◌&&◌, refl,
}
use gnosis.Crypto.{Digest}
use gnosis.Mempool.State.{Env, IsHashSet, Core}
use gnosis.Prelude.Map.{add, mem}
use gnosis.Mempool.Handlers.{
  handle_own_payload, process_own_payload, transmit, enqueue, store_payload,
}
use gnosis.Mempool.Triple.{Triple, ◌▷◌, Triple-get, Triple-modify, Triple-lift, Triple-weaken}

length-add : (d : Digest) (xs : List Digest) → length (add d xs) ≤ length xs + 1
unfolding add
length-add d xs = elim (Bool-cases (mem d xs)) [
  | inl known ↦ rw known (omega arith)
  | inr new ↦ rw new (omega arith)
]

module _ (opt_capacity pes_capacity : ℕ) where
  -- Both queues fit their capacities, which are these.
  abbrev pub FitsCapacity : Core → Type 0
  FitsCapacity s =
      (s.opt_capacity ≡ opt_capacity)
      × (s.pes_capacity ≡ pes_capacity)
      × (length s.opt_queue ≤ opt_capacity)
      × (length s.pes_queue ≤ pes_capacity)

  -- Both have room for a further digest.
  abbrev HasRoom : Core → Type 0
  HasRoom s = (length s.opt_queue < opt_capacity) × (length s.pes_queue < pes_capacity)

  module _ (env : Env) (hash_set : IsHashSet env) where
    FitsCapacity-enqueue :
        (d : Digest) (s : Core) → FitsCapacity s → HasRoom s → FitsCapacity (enqueue env d s)
    unfolding enqueue
    FitsCapacity-enqueue d s h room =
        let o = length-add d s.opt_queue in
        let p = length-add d s.pes_queue in
        (
          hash_set.keeps s.opt_capacity (length (add d s.opt_queue)) (omega (arith, o, h.0, room.0))
              ∙ h.0,
          hash_set.keeps s.pes_capacity (length (add d s.pes_queue)) (omega (arith, p, h.1, room.1))
              ∙ h.1,
          omega (arith, o, room.0),
          omega (arith, p, room.1),
        )

    guarded :
        (s : Core)
        → FitsCapacity s
        → {u : Unit {0}}
        → ensure
            (ltb (length s.opt_queue) s.opt_capacity && ltb (length s.pes_queue) s.pes_capacity)
            mempool_full
          ≡ ok u
        → HasRoom s
    guarded s h passed = ground (arith, h.0, h.1, passed)

    process_own_payload-HasRoom :
        (d : Digest) (p : Payload)
        → Triple FitsCapacity (λ _. Unit) (process_own_payload env d p) (λ _. HasRoom)
    unfolding process_own_payload transmit store_payload
    process_own_payload-HasRoom d p = Triple-get ▷ λ s. Triple-lift _ ▷ λ _.
        Triple-modify _ HasRoom
          (λ t h p. (h, subst HasRoom p.1.0 (guarded s (subst FitsCapacity (sym p.1.0) h) p.0)))
        ▷ λ _. Triple-modify _ HasRoom (λ t h room. (h, room))

    handle_own_payload-Triple :
        (p : Payload) → Triple FitsCapacity (λ _. Unit) (handle_own_payload env p) (λ _ _. Unit)
    unfolding handle_own_payload
    handle_own_payload-Triple p = Triple-get ▷ λ s. Triple-lift _ ▷ λ _.
        Triple-weaken _ _ _ (λ t _. tt) (λ _ t room. room) (process_own_payload-HasRoom _ p) ▷ λ _.
        Triple-modify _ (λ _. Unit) (λ t h room. (FitsCapacity-enqueue _ t h room, tt))

-- Where the queues fit their capacities, a payload of the node's own, whether it is accepted or
-- not, makes neither queue allocate: the capacities stay, and the queues still fit them. A hash set
-- must keep its capacity where what it holds still fits.
pub handle_own_payload-FitsCapacity :
    (env : Env) (p : Payload) (s : Core)
    → IsHashSet env
    → length s.opt_queue ≤ s.opt_capacity
    → length s.pes_queue ≤ s.pes_capacity
    → FitsCapacity s.opt_capacity s.pes_capacity (handle_own_payload env p s).1
handle_own_payload-FitsCapacity env p s hash_set o q =
    ((handle_own_payload-Triple s.opt_capacity s.pes_capacity env hash_set p).at s
      (refl, refl, o, q) tt).0
