-- ===== src/Aggregator/Quorums.antt =====
-- How often QCMaker::append of consensus/src/aggregator.rs makes a QC.
use gnosis.Prelude.Words.{add32}
use gnosis.Prelude.Map.{add, mem}
use gnosis.Config.Stake.{Fits, Distinct, stake_of, stake_of-le-total, total_votes-eq-exact_sum}
use gnosis.Prelude.{
  List, ℕ, Option, ◌∷◌, ◌<◌, ◌+◌, [], length, ◌*◌, some, ◌≤◌, ◌≡◌, true, false, arith, inl, ◌⊎◌,
  inr, nat_eq, ◌++◌, leb, none, Bool-cases, refl, leb→le, suc, zero,
}
use gnosis.Error.{Outcome, ok, err, authority_reuse_in_qc}
use gnosis.Config.{Committee, stake, quorum_threshold, total_votes}
use gnosis.Messages.{HVote, Qc}
use gnosis.Aggregator.{QcMaker, append_hvote, new_qc_maker, qc_of}

unfoldable pub made_qc : Outcome (Option Qc) → List Qc → List Qc
made_qc (ok (some qc)) qcs = qc ∷ qcs
made_qc _ qcs = qcs

-- The QCs that a maker makes of a sequence of votes.
unfoldable pub made : QcMaker → List HVote → Committee → List Qc
unfolding made_qc
made m [] c = []
made m (v ∷ votes) c = let (m', r) = append_hvote m v c in made_qc r (made m' votes c)

-- `n` QCs have used up the stake of `n` quorums, and the weight counts from there.
pub record Counts (c : Committee) (n : ℕ) (m : QcMaker) : Type 0 where
  pub distinct : Distinct m.used
  pub paid : n * quorum_threshold c + m.weight ≤ stake_of c m.used

-- A maker after a vote of a new author.
abbrev pub grown : QcMaker → HVote → ℕ → QcMaker
grown m v weight = record {
  weight = weight;
  votes = m.votes ++ (v.author, v.signature) ∷ [];
  used = v.author ∷ m.used;
}

-- The three ways of `append`: the author was counted before; the vote completes a quorum; or not.
pub append_hvote-cases :
    (m : QcMaker) (v : HVote) (c : Committee)
    → ((mem v.author m.used ≡ true)
        × (append_hvote m v c ≡ (m, err (authority_reuse_in_qc v.author))))
      ⊎ ((mem v.author m.used ≡ false)
          × (quorum_threshold c ≤ add32 m.weight (stake c v.author))
          × (append_hvote m v c
              ≡ (grown m v 0, ok (some (qc_of v (m.votes ++ (v.author, v.signature) ∷ []))))))
      ⊎ ((mem v.author m.used ≡ false)
          × (append_hvote m v c ≡ (grown m v (add32 m.weight (stake c v.author)), ok none)))
unfolding append_hvote add
append_hvote-cases m v c = elim (Bool-cases (mem v.author m.used)) [
  | inl old ↦ inl (old, rw old refl)
  | inr new ↦ elim (Bool-cases (leb (quorum_threshold c) (add32 m.weight (stake c v.author)))) [
    | inl full ↦ inr (inl (new, leb→le _ _ full, rw (new, full) refl))
    | inr part ↦ inr (inr (new, rw (new, part) refl))
  ]
]

module _ (c : Committee) (fits : Fits c) where
  -- The stake of another author does not wrap the weight around.
  pub exact_weight :
      (m : QcMaker) (n x : ℕ)
      → mem x m.used ≡ false
      → Counts c n m
      → add32 m.weight (stake c x) ≡ m.weight + stake c x
  unfolding stake_of
  exact_weight m n x new k =
      let d : Distinct (x ∷ m.used) = (new, k.distinct) in
      omega
        (arith, k.paid, stake_of-le-total c (x ∷ m.used) fits d, total_votes-eq-exact_sum c fits)

  full-Counts :
      (m : QcMaker) (v : HVote) (n : ℕ)
      → mem v.author m.used ≡ false
      → quorum_threshold c ≤ add32 m.weight (stake c v.author)
      → Counts c n m
      → Counts c (suc n) (grown m v 0)
  unfolding stake_of
  full-Counts m v n new full k = record {
    distinct = (new, k.distinct);
    paid = omega (arith, k.paid, exact_weight m n v.author new k);
  }

  part-Counts :
      (m : QcMaker) (v : HVote) (n : ℕ)
      → mem v.author m.used ≡ false
      → Counts c n m
      → Counts c n (grown m v (add32 m.weight (stake c v.author)))
  unfolding stake_of
  part-Counts m v n new k = record {
    distinct = (new, k.distinct);
    paid = omega (arith, k.paid, exact_weight m n v.author new k);
  }

  -- The quorums of all QCs made are stake of the committee.
  made-bound :
      (m : QcMaker) (votes : List HVote) (n : ℕ)
      → Counts c n m
      → (n + length (made m votes c)) * quorum_threshold c ≤ total_votes c
  unfolding made
  made-bound m [] n k = omega (arith, k.paid, stake_of-le-total c m.used fits k.distinct)
  made-bound m (v ∷ votes) n k = elim (append_hvote-cases m v c) [
    | inl (old, e) ↦ rw e (made-bound m votes n k)
    | inr (inl (new, full, e)) ↦ rw e (
        let rest = made-bound (grown m v 0) votes (suc n) (full-Counts m v n new full k) in
        omega (arith, rest))
    | inr (inr (new, e)) ↦ rw e (
        made-bound (grown m v (add32 m.weight (stake c v.author))) votes n
          (part-Counts m v n new k))
  ]

two_fit : (q t n : ℕ) → n * q ≤ t → t < 2 * q → n ≤ 1
two_fit q t zero h small = omega arith
two_fit q t (suc zero) h small = omega arith
two_fit q t (suc (suc n)) h small = absurd (omega arith)

-- A maker that starts empty makes at most one QC of any votes, if two quorums are more than the
-- committee's stake and the stakes fit a u32 together.
pub at_most_one_qc :
    (c : Committee) (votes : List HVote)
    → Fits c
    → total_votes c < 2 * quorum_threshold c
    → length (made new_qc_maker votes c) ≤ 1
at_most_one_qc c votes fits small =
    two_fit (quorum_threshold c) (total_votes c) (length (made new_qc_maker votes c))
      (omega (arith, made-bound c fits new_qc_maker votes 0 start)) small
  where
    start : Counts c 0 new_qc_maker
    start = record { distinct = tt; paid = omega arith }
