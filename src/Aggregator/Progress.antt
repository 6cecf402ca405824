-- ===== src/Aggregator/Progress.antt =====
-- When QCMaker::append of consensus/src/aggregator.rs makes a QC.
use gnosis.Prelude.Words.{add32}
use gnosis.Prelude.Map.{mem, add}
use gnosis.Crypto.{Signature}
use gnosis.Messages.Quorums.{seen, Distinct-seen}
use gnosis.Aggregator.{QcMaker, append_hvote, new_qc_maker}
use gnosis.Messages.{HVote}
use gnosis.Config.Stake.{stake_of, Fits, Distinct}
use gnosis.Config.{Committee, quorum_threshold, stake}
use gnosis.Prelude.{
  List, ℕ, ◌≡◌, [], map, ◌<◌, arith, false, ◌≤◌, length, ◌∷◌, leb, refl, Bool-cases, inl, nat_eq,
  inr,
}
use gnosis.Aggregator.Quorums.{made, made_qc, exact_weight, Counts, grown}

-- The votes as they stand in a QC.
abbrev pub signed_votes : List HVote → List (ℕ × Signature)
signed_votes votes = map (λ (v : HVote). (v.author, v.signature)) votes

module _ (c : Committee) (fits : Fits c) where
  record Waits (m : QcMaker) : Type 0 where
    distinct : Distinct m.used
    counted : m.weight ≡ stake_of c m.used
    short : m.weight < quorum_threshold c

  counts : (m : QcMaker) → Waits m → Counts c 0 m
  counts m k = record { distinct = k.distinct; paid = omega (arith, k.counted) }

  part-Waits :
      (m : QcMaker) (v : HVote) (w : ℕ)
      → mem v.author m.used ≡ false
      → w ≡ add32 m.weight (stake c v.author)
      → leb (quorum_threshold c) w ≡ false
      → Waits m
      → Waits (grown m v w)
  unfolding stake_of
  part-Waits m v w new e low k = record {
    distinct = (new, k.distinct);
    counted = omega (arith, k.counted, e, exact_weight c fits m 0 v.author new (counts m k));
    short = ground arith;
  }

  made-some :
      (m : QcMaker) (votes : List HVote)
      → Waits m
      → Distinct (seen (signed_votes votes) m.used)
      → quorum_threshold c ≤ stake_of c (seen (signed_votes votes) m.used)
      → 1 ≤ length (made m votes c)
  unfolding made made_qc seen append_hvote add
  made-some m [] k d full = absurd (omega (arith, k.short, k.counted))
  made-some m (v ∷ votes) k d full =
      let w : ℕ = add32 m.weight (stake c v.author) in
      let (new, _) = Distinct-seen (signed_votes votes) (v.author ∷ m.used) d in
      elim (Bool-cases (leb (quorum_threshold c) w)) [
        | inl high ↦ rw (new, high) (omega arith)
        | inr low ↦
            rw (new, low) (made-some (grown m v w) votes (part-Waits m v w new refl low k) d full)
      ]

-- A maker that starts empty makes a QC of any votes of distinct authorities that hold a quorum, if the stakes fit a u32 together.
pub quorum_makes_qc :
    (c : Committee) (votes : List HVote)
    → Fits c
    → Distinct (seen (signed_votes votes) [])
    → quorum_threshold c ≤ stake_of c (seen (signed_votes votes) [])
    → 1 ≤ length (made new_qc_maker votes c)
unfolding stake_of quorum_threshold
quorum_makes_qc c votes fits d full = made-some c fits new_qc_maker votes start d full
  where
    start : Waits c fits new_qc_maker
    start = record { distinct = tt; counted = refl; short = omega arith }
