-- ===== src/Tests/Mempool.antt =====
-- Examples about payloads.
use gnosis.Mempool.Bounds.{Within, IsSized, run_maker-IsSized}
use gnosis.Mempool.Order.{packed, received, run_maker-packed}
use gnosis.Prelude.{List, All, [], arith, ◌++◌, ◌≤◌, refl, ◌∷◌, ◌≡◌}
use gnosis.Mempool.Payload.{Runner, Input, run_maker, payload_size, client_transaction, request}
use gnosis.Tests.Toy.{toy}

abbrev runner : Runner
runner = record { transactions = []; size = 0; max_size = 4; name = 1 }

abbrev inputs : List Input
inputs =
    client_transaction (1 ∷ 2 ∷ 3 ∷ [])
    ∷ client_transaction (4 ∷ 5 ∷ [])
    ∷ request
    ∷ client_transaction (6 ∷ [])
    ∷ []

run_maker-packed_example :
    packed (run_maker toy runner inputs).1 ++ (run_maker toy runner inputs).0.transactions
    ≡ runner.transactions ++ received inputs
run_maker-packed_example = run_maker-packed toy inputs runner

inputs-Within : Within runner.max_size inputs
inputs-Within = (omega arith, (omega arith, (omega arith, tt)))

runner-IsSized : IsSized runner
runner-IsSized = (refl, omega arith)

run_maker-IsSized_example :
    All (λ p. payload_size p ≤ runner.max_size) (run_maker toy runner inputs).1
    × IsSized (run_maker toy runner inputs).0
run_maker-IsSized_example =
    run_maker-IsSized toy inputs runner (omega arith) inputs-Within runner-IsSized
