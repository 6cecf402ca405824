-- ===== src/Mempool/Bounds.antt =====
-- The sizes of the payloads that the runner of mempool/src/payload.rs makes.
use gnosis.Prelude.Words.{u64_mod, add64}
use gnosis.Crypto.{Crypto}
use gnosis.Prelude.{
  ℕ, ◌≡◌, List, ◌≤◌, ◌∷◌, ◌++◌, [], length, ◌+◌, arith, ◌*◌, ◌<◌, All, Bool-cases, ltb, inl, inr,
  refl,
}
use gnosis.Mempool.Payload.{
  Transaction, Runner, Input, total, run_maker, add_transaction, client_transaction, make_payload,
  push_transaction, request, made_by, new_payload, payload_size,
}

-- The size is that of the transactions that wait, and within the limit.
abbrev pub IsSized : Runner → Type 0
IsSized r = (r.size ≡ total r.transactions) × (r.size ≤ r.max_size)

-- Each transaction among the inputs is within a limit.
abbrev pub Within : ℕ → List Input → Type 0
Within limit [] = Unit {0}
Within limit (client_transaction tx ∷ inputs) = (length tx ≤ limit) × Within limit inputs
Within limit (request ∷ inputs) = Within limit inputs

total-snoc :
    (txs : List Transaction) (tx : Transaction) → total (txs ++ tx ∷ []) ≡ total txs + length tx
total-snoc [] tx = omega arith
total-snoc (x ∷ txs) tx = omega (arith, total-snoc txs tx)

-- Every payload that a run makes is within the limit on sizes, as are the transactions that still
-- wait, whose recorded size is right, if that was so at first, each transaction received is within
-- the limit, and twice the limit fits a u64.
pub run_maker-IsSized :
    (crypto : Crypto) (inputs : List Input) (r : Runner)
    → 2 * r.max_size < u64_mod
    → Within r.max_size inputs
    → IsSized r
    → All (λ p. payload_size p ≤ r.max_size) (run_maker crypto r inputs).1
      × IsSized (run_maker crypto r inputs).0
unfolding run_maker add_transaction make_payload push_transaction made_by new_payload payload_size
run_maker-IsSized crypto [] r fits within sized = (tt, sized)
run_maker-IsSized crypto (client_transaction tx ∷ inputs) r fits within sized =
    elim (Bool-cases (ltb r.max_size (add64 r.size (length tx)))) [
      | inl full ↦
          let next : Runner = push_transaction crypto tx (make_payload crypto r).0 in
          let (payloads, last) =
            run_maker-IsSized crypto inputs next fits within.1
              (omega (arith, within.0), omega (arith, within.0)) in
          rw full ((omega (arith, sized.0, sized.1), payloads), last)
      | inr room ↦
          let next : Runner = push_transaction crypto tx r in
          let small : add64 r.size (length tx) ≤ r.max_size = ground arith in
          rw room (
            run_maker-IsSized crypto inputs next fits within.1
              (omega (arith, within.0, sized.0, sized.1, total-snoc r.transactions tx), small))
    ]
run_maker-IsSized crypto (request ∷ inputs) r fits within sized =
    let next : Runner = (make_payload crypto r).0 in
    let (payloads, last) = run_maker-IsSized crypto inputs next fits within (refl, omega arith) in
    ((omega (arith, sized.0, sized.1), payloads), last)
