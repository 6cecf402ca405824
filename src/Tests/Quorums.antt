-- ===== src/Tests/Quorums.antt =====
-- Examples about stakes, QCs, proofs and the coin.
use gnosis.Messages.Proofs.{verify_proof-replicate}
use gnosis.Prelude.Words.{u32_mod}
use gnosis.Aggregator.Proofs.{made_proofs, made_proofs-verify}
use gnosis.Error.{ok}
use gnosis.Aggregator.Certificates.{IsVoteFor, made-verifies}
use gnosis.Messages.Digests.{hvote_digest, qc_digest}
use gnosis.Config.Quorum.{common, quorum_intersection}
use gnosis.Aggregator.{new_qc_maker, new_proof_maker}
use gnosis.Messages.{SpbVote, init_phase, fin_phase}
use gnosis.Aggregator.Progress.{signed_votes, quorum_makes_qc}
use gnosis.Aggregator.Quorums.{made, at_most_one_qc}
use gnosis.Crypto.{verify, verify_batch}
use gnosis.Tests.Toy.{
  four, toy, qc_123, votes_123, qc_234, four_quorum, signed_by, vote_by, four-Fits,
  toy-BatchIsSound, four_votes,
}
use gnosis.Messages.Quorums.{seen, voters, verify_qc_sound}
use gnosis.Prelude.Map.{mem, lookup, add}
use gnosis.Config.{stake, quorum_threshold, size, total_votes, sum_stakes}
use gnosis.Config.Stake.{Distinct, stake_of}
use gnosis.Messages.Checks.{verify_qc, verify_hvote, verify_spb_vote, qc_weight, verify_proof}
use gnosis.Prelude.{
  ℕ, ◌≤◌, All, length, ◌*◌, List, ◌∷◌, ◌<◌, ltb, ◌≡◌, [], arith, all, true, ◌+◌, refl, nat_eq,
  replicate,
}

qc_123-passes : verify_qc toy four qc_123 ≡ ok tt
unfolding verify_qc qc_weight verify_batch stake lookup mem add quorum_threshold total_votes
    sum_stakes
qc_123-passes = refl

qc_234-passes : verify_qc toy four qc_234 ≡ ok tt
unfolding verify_qc qc_weight verify_batch stake lookup mem add quorum_threshold total_votes
    sum_stakes
qc_234-passes = refl

verify_qc_sound_example :
    Distinct (voters qc_123)
    × (quorum_threshold four ≤ stake_of four (voters qc_123))
    × (all (λ v. toy.verify_strict v.0 (qc_digest toy qc_123) v.1) qc_123.votes ≡ true)
verify_qc_sound_example = verify_qc_sound toy four qc_123 toy-BatchIsSound four-Fits qc_123-passes

vote-passes : (k : ℕ) → ltb 0 (stake four k) ≡ true → verify_hvote toy four (vote_by k) ≡ ok tt
unfolding verify_hvote verify
vote-passes k h = rw h (ground arith)

votes_123-IsVoteFor : All (IsVoteFor toy four (hvote_digest toy (vote_by 1))) votes_123
unfolding stake lookup hvote_digest
votes_123-IsVoteFor =
    ((vote-passes 1 refl, refl), ((vote-passes 2 refl, refl), ((vote-passes 3 refl, refl), tt)))

made-verifies_example : All (λ qc. verify_qc toy four qc ≡ ok tt) (made new_qc_maker votes_123 four)
made-verifies_example =
    made-verifies toy four (hvote_digest toy (vote_by 1)) votes_123 toy-BatchIsSound four-Fits
      votes_123-IsVoteFor

at_most_one_qc_example : length (made new_qc_maker votes_123 four) ≤ 1
at_most_one_qc_example =
    at_most_one_qc four votes_123 four-Fits (omega (arith, four_votes, four_quorum))

stake_of_three : stake_of four (1 ∷ 2 ∷ 3 ∷ []) ≡ 3
unfolding stake_of stake lookup
stake_of_three = refl

stake_of_others : stake_of four (2 ∷ 3 ∷ 4 ∷ []) ≡ 3
unfolding stake_of stake lookup
stake_of_others = refl

three-Distinct : Distinct (1 ∷ 2 ∷ 3 ∷ [])
unfolding mem
three-Distinct = (refl, (refl, (refl, tt)))

others-Distinct : Distinct (2 ∷ 3 ∷ 4 ∷ [])
unfolding mem
others-Distinct = (refl, (refl, (refl, tt)))

quorum_intersection_example :
    (2 * quorum_threshold four
      ≤ total_votes four + stake_of four (common (1 ∷ 2 ∷ 3 ∷ []) (2 ∷ 3 ∷ 4 ∷ [])))
    × ((f : ℕ)
        → total_votes four ≡ 3 * f + 1
        → f + 1 ≤ stake_of four (common (1 ∷ 2 ∷ 3 ∷ []) (2 ∷ 3 ∷ 4 ∷ [])))
quorum_intersection_example =
    quorum_intersection four (1 ∷ 2 ∷ 3 ∷ []) (2 ∷ 3 ∷ 4 ∷ []) four-Fits three-Distinct
      others-Distinct (omega (arith, four_quorum, stake_of_three))
      (omega (arith, four_quorum, stake_of_others))

votes_123-full : quorum_threshold four ≤ stake_of four (seen (signed_votes votes_123) [])
unfolding seen stake_of stake lookup
votes_123-full = omega (arith, four_quorum)

votes_123-Distinct : Distinct (seen (signed_votes votes_123) [])
unfolding seen mem
votes_123-Distinct = (refl, (refl, (refl, tt)))

quorum_makes_qc_example : 1 ≤ length (made new_qc_maker votes_123 four)
quorum_makes_qc_example = quorum_makes_qc four votes_123 four-Fits votes_123-Distinct votes_123-full

abbrev lock_vote_by : ℕ → SpbVote
lock_vote_by k = record {
  hash = 77;
  phase = init_phase;
  height = 1;
  epoch = 0;
  round = 1;
  proposer = 2;
  author = k;
  signature = signed_by k;
}

abbrev lock_votes : List SpbVote
lock_votes = lock_vote_by 1 ∷ lock_vote_by 2 ∷ lock_vote_by 3 ∷ []

lock_votes-checked : All (λ v. verify_spb_vote toy four v ≡ ok tt) lock_votes
unfolding verify_spb_vote verify stake lookup
lock_votes-checked = (refl, (refl, (refl, tt)))

made_proofs-verify_example :
    All (λ p. verify_proof toy four p ≡ ok tt) (made_proofs new_proof_maker lock_votes four)
made_proofs-verify_example = made_proofs-verify toy four lock_votes four-Fits lock_votes-checked

four-size : 0 < size four
unfolding size
four-size = omega arith

three_full : quorum_threshold four ≤ 3 * stake four 1
unfolding stake lookup
three_full = omega (arith, four_quorum)

three_fit : 3 * stake four 1 < u32_mod
unfolding stake lookup
three_fit = omega arith

verify_proof-replicate_example :
    verify_proof toy four
      (record { phase = fin_phase; round = 1; height = 1; shares = replicate 3 (lock_vote_by 1) })
    ≡ ok tt
verify_proof-replicate_example =
    verify_proof-replicate toy four (lock_vote_by 1) 3 fin_phase 1 1 lock_votes-checked.0 three_fit
      three_full
