-- ===== src/Messages/Proofs.antt =====
-- What SPBProof::verify of consensus/src/messages.rs accepts.
use gnosis.Prelude.Words.{u32_mod, add32}
use gnosis.Error.{ok, >>=-eq-ok, ensure, unknown_authority, ensure-eq-ok}
use gnosis.Prelude.{
  ◌≡◌, ℕ, ltb, ◌+◌, replicate, ◌*◌, suc, zero, true, ◌<◌, refl, ap, arith, ◌≤◌, leb, ◌∙◌,
  Bool-cases, inl, inr,
}
use gnosis.Messages.{SpbVote}
use gnosis.Config.{Committee, stake, quorum_threshold}
use gnosis.Crypto.{Crypto}
use gnosis.Messages.Checks.{verify_proof, shares_weight, verify_shares, verify_spb_vote}

module _ (crypto : Crypto) (c : Committee) (v : SpbVote)
    (passed : verify_spb_vote crypto c v ≡ ok tt) where
  author-rights : ltb 0 (stake c v.author) ≡ true
  unfolding verify_spb_vote
  author-rights =
      let (_, rights, _) =
        >>=-eq-ok (ensure (ltb 0 (stake c v.author)) (unknown_authority v.author)) _ passed in
      ensure-eq-ok _ _ rights

  shares_weight-replicate :
      (n w : ℕ)
      → w + n * stake c v.author < u32_mod
      → shares_weight c (replicate n v) w ≡ ok (w + n * stake c v.author)
  unfolding shares_weight
  shares_weight-replicate zero w lt = ap ok (omega arith)
  shares_weight-replicate (suc n) w lt =
      rw author-rights
        (shares_weight-replicate n (add32 w (stake c v.author)) (omega arith) ∙ ap ok (omega arith))

  verify_shares-replicate : (n : ℕ) → verify_shares crypto c (replicate n v) ≡ ok tt
  unfolding verify_shares
  verify_shares-replicate zero = refl
  verify_shares-replicate (suc n) = rw (passed, verify_shares-replicate n) refl

-- One share that passes its check, repeated as often as it takes for its author's stake to add up to
-- the quorum, is a proof that passes, of whatever phase, round and height, if the sum of the stakes
-- fits a u32.
pub verify_proof-replicate :
    (crypto : Crypto) (c : Committee) (v : SpbVote) (n phase round height : ℕ)
    → verify_spb_vote crypto c v ≡ ok tt
    → n * stake c v.author < u32_mod
    → quorum_threshold c ≤ n * stake c v.author
    → verify_proof crypto c
        (record { phase = phase; round = round; height = height; shares = replicate n v })
      ≡ ok tt
unfolding verify_proof
verify_proof-replicate crypto c v n phase round height passed fits full =
    let weighed = shares_weight-replicate crypto c v passed n 0 (omega arith) in
    let reached : leb (quorum_threshold c) (0 + n * stake c v.author) ≡ true = ground arith in
    let all_pass = verify_shares-replicate crypto c v passed n in
    elim (Bool-cases (leb phase 0)) [
      | inl first ↦ rw first refl
      | inr later ↦
          let lock : leb 1 phase ≡ true = ground arith in
          rw (later, lock, weighed, reached, all_pass) refl
    ]
