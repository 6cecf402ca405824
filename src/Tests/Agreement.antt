-- ===== src/Tests/Agreement.antt =====
-- An example about QCs of one height: of four authorities, the fourth is faulty.
use gnosis.Error.{ok}
use gnosis.Messages.Agreement.{Honest, qcs_agree}
use gnosis.Prelude.Words.{be_bytes, le_bytes}
use gnosis.Messages.Digests.{qc_digest, hvote_digest}
use gnosis.Messages.Checks.{verify_qc, qc_weight}
use gnosis.Config.{stake, quorum_threshold, total_votes, sum_stakes}
use gnosis.Crypto.{Crypto, BatchIsSound, Signature, verify_batch}
use gnosis.Tests.Toy.{four, toy, qc_123, qc_234, vote_by, four-Fits, four_votes}
use gnosis.Config.Stake.{Distinct, stake_of}
use mathlib.Core.Bool.{true≢false}
use gnosis.Tests.Toy.{qc_by}
use gnosis.Messages.Agreement.{Tells}
use gnosis.Prelude.Map.{lookup, mem, add}
use gnosis.Error.{ok}
use gnosis.Prelude.{
  nat_eq, ℕ, nat_eqb, ◌∙◌, List, not, ◌≡◌, ◌&&◌, map, sym, All, ap, all, false, ◌∷◌, ◌≤◌, [], arith,
  refl, Bool, nat_eqb_iff, true,
}

-- A signature is valid for the key that it names, on the one vote of the honest.
abbrev voted : ℕ
voted = hvote_digest toy (vote_by 1)

abbrev strict : Crypto
strict = record toy {
  verify_strict = λ k d s. nat_eqb s.part1 k && nat_eqb d voted;
  batch = λ votes. all (λ v. nat_eqb v.1.part1 v.2 && nat_eqb v.0 voted) votes;
}

strict-batch :
    (d : ℕ) (votes : List (ℕ × Signature))
    → strict.batch (map (λ v. (d, v.1, v.0)) votes)
      ≡ all (λ v. strict.verify_strict v.0 d v.1) votes
strict-batch d [] = refl
strict-batch d (v ∷ votes) =
    ap (λ b. (nat_eqb v.1.part1 v.0 && nat_eqb d voted) && b) (strict-batch d votes)

strict-BatchIsSound : BatchIsSound strict
strict-BatchIsSound = record {
  accepts = λ d votes h. strict-batch d votes ∙ h;
  rejects = λ d votes h. sym (strict-batch d votes) ∙ h;
}

is_four : (x : ℕ) → not (nat_eqb x 4) ≡ false → x ≡ 4
is_four x h = ground (arith, h)

second : (a b : Bool) → a && b ≡ true → b ≡ true
second true b h = h
second false b h = cc

few_faulty :
    (xs : List ℕ) → Distinct xs → All (λ x. not (nat_eqb x 4) ≡ false) xs → stake_of four xs ≤ 1
unfolding stake_of stake lookup mem
few_faulty [] d h = omega arith
few_faulty (x ∷ []) d h = rw (is_four x h.0) (omega arith)
few_faulty (x ∷ y ∷ xs) d h =
    absurd (true≢false (sym (rw (is_four x h.0, is_four y h.1.0) refl) ∙ d.0))

honest_three : Honest strict four 1
unfolding hvote_digest
honest_three = record {
  honest = λ k. not (nat_eqb k 4);
  Signs = λ k v. v ≡ vote_by 1;
  few = few_faulty;
  unforged = λ k d s good valid.
      (vote_by 1, refl, sym ((nat_eqb_iff d voted).0 (second (nat_eqb s.part1 k) _ valid)));
  one_block = λ k v w good e e' tags same. ap (λ u. u.hash) (e ∙ sym e');
}

told : (authors : List ℕ) → Tells strict four 1 honest_three (qc_by authors)
unfolding Tells honest_three
told authors k v good e digest =
    (ap (λ u. u.hash) e, ap (λ u. u.tag) e, ap (λ u. u.epoch) e, ap (λ u. u.height) e)

qc_123-strict : verify_qc strict four qc_123 ≡ ok tt
unfolding verify_qc qc_weight verify_batch stake lookup mem add quorum_threshold total_votes
    sum_stakes qc_digest hvote_digest be_bytes le_bytes
qc_123-strict = refl

qc_234-strict : verify_qc strict four qc_234 ≡ ok tt
unfolding verify_qc qc_weight verify_batch stake lookup mem add quorum_threshold total_votes
    sum_stakes qc_digest hvote_digest be_bytes le_bytes
qc_234-strict = refl

qcs_agree_example : qc_123.hash ≡ qc_234.hash
qcs_agree_example =
    qcs_agree strict four qc_123 qc_234 1 strict-BatchIsSound four-Fits four_votes honest_three
      (told (1 ∷ 2 ∷ 3 ∷ [])) (told (2 ∷ 3 ∷ 4 ∷ [])) qc_123-strict qc_234-strict (refl, refl)
      (refl, refl)
