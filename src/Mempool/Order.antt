-- ===== src/Mempool/Order.antt =====
-- What the runner of mempool/src/payload.rs does with the transactions that it is given.
use gnosis.Prelude.Words.{add64}
use gnosis.Crypto.{Crypto}
use gnosis.Prelude.{List, ◌∷◌, ◌++◌, [], ◌≡◌, sym, Bool-cases, ltb, length, inl, ◌∙◌, ap, inr}
use mathlib.Core.List.{append-nil, append_assoc}
use gnosis.Mempool.Payload.{
  Transaction, Payload, Runner, Input, run_maker, add_transaction, client_transaction, make_payload,
  push_transaction, request, made_by, new_payload,
}

-- The transactions among the inputs, and those in payloads.
abbrev pub received : List Input → List Transaction
received [] = []
received (client_transaction tx ∷ inputs) = tx ∷ received inputs
received (request ∷ inputs) = received inputs

abbrev pub packed : List Payload → List Transaction
packed [] = []
packed (p ∷ payloads) = p.transactions ++ packed payloads

-- However transactions and requests come, the transactions of the payloads, and then those that wait,
-- are those that waited at first and then those received, in the order of their coming: none is
-- lost, doubled or moved.
pub run_maker-packed :
    (crypto : Crypto) (inputs : List Input) (r : Runner)
    → packed (run_maker crypto r inputs).1 ++ (run_maker crypto r inputs).0.transactions
      ≡ r.transactions ++ received inputs
unfolding run_maker add_transaction make_payload push_transaction made_by new_payload
run_maker-packed crypto [] r = sym (append-nil r.transactions)
run_maker-packed crypto (client_transaction tx ∷ inputs) r =
    elim (Bool-cases (ltb r.max_size (add64 r.size (length tx)))) [
      | inl full ↦
          let next : Runner = push_transaction crypto tx (make_payload crypto r).0 in
          rw full (
            append_assoc r.transactions (packed (run_maker crypto next inputs).1) _
            ∙ ap (◌++◌ r.transactions) (run_maker-packed crypto inputs next))
      | inr fits ↦
          let next : Runner = push_transaction crypto tx r in
          rw fits (
            run_maker-packed crypto inputs next
            ∙ append_assoc r.transactions (tx ∷ []) (received inputs))
    ]
run_maker-packed crypto (request ∷ inputs) r =
    let next : Runner = (make_payload crypto r).0 in
    append_assoc r.transactions (packed (run_maker crypto next inputs).1) _
    ∙ ap (◌++◌ r.transactions) (run_maker-packed crypto inputs next)
