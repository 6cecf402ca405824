-- ===== src/Aggregator/Proofs.antt =====
-- ProofMaker::append of consensus/src/aggregator.rs against SPBProof::verify of
-- consensus/src/messages.rs.
use gnosis.Aggregator.Certificates.{All-snoc}
use gnosis.Prelude.Words.{add32}
use gnosis.Messages.Checks.{verify_spb_vote, shares_weight, verify_shares, verify_proof}
use gnosis.Prelude.Map.{mem, add}
use gnosis.Config.{Committee, quorum_threshold, stake}
use gnosis.Messages.{SpbVote, SpbProof}
use gnosis.Config.Stake.{stake_of, Fits, Distinct, stake_of-le-total, total_votes-eq-exact_sum}
use gnosis.Crypto.{Crypto, Signature}
use gnosis.Prelude.{
  List, Option, ℕ, ◌++◌, ◌∷◌, ◌≡◌, All, [], some, map, ltb, false, ap, ◌≤◌, arith, refl, true, ◌∙◌,
  leb, Bool-cases, sym, inl, inr, ◌+◌, ◌%◌, nat_eq,
}
use gnosis.Aggregator.{ProofMaker, append_spb_vote, new_proof_maker}
use gnosis.Error.{Outcome, ok, >>=-eq-ok, ensure, unknown_authority, ensure-eq-ok}
use gnosis.Messages.Quorums.{seen, Distinct-seen, seen-snoc}

made_proof : Outcome (Option SpbProof) → List SpbProof → List SpbProof
made_proof (ok (some p)) ps = p ∷ ps
made_proof _ ps = ps

-- The proofs that a maker makes of a sequence of votes.
unfoldable pub made_proofs : ProofMaker → List SpbVote → Committee → List SpbProof
unfolding made_proof
made_proofs m [] c = []
made_proofs m (v ∷ votes) c =
    let (m', r) = append_spb_vote m v c in made_proof r (made_proofs m' votes c)

abbrev signed_shares : List SpbVote → List (ℕ × Signature)
signed_shares shares = map (λ (v : SpbVote). (v.author, v.signature)) shares

signed_shares-snoc :
    (shares : List SpbVote) (v : SpbVote)
    → signed_shares (shares ++ v ∷ []) ≡ signed_shares shares ++ (v.author, v.signature) ∷ []
signed_shares-snoc [] v = refl
signed_shares-snoc (s ∷ shares) v = ap (◌∷◌ (s.author, s.signature)) (signed_shares-snoc shares v)

abbrev grown_proof : ProofMaker → SpbVote → ℕ → ProofMaker
grown_proof m v weight = record {
  weight = weight;
  votes = m.votes ++ v ∷ [];
  used = v.author ∷ m.used;
}

module _ (crypto : Crypto) (c : Committee) (fits : Fits c) where
  abbrev IsChecked : SpbVote → Type 0
  IsChecked v = verify_spb_vote crypto c v ≡ ok tt

  checked-rights : (v : SpbVote) → IsChecked v → ltb 0 (stake c v.author) ≡ true
  unfolding verify_spb_vote
  checked-rights v h =
      let (_, rights, _) =
        >>=-eq-ok (ensure (ltb 0 (stake c v.author)) (unknown_authority v.author)) _ h in
      ensure-eq-ok _ _ rights

  shares_weight-exact :
      (shares : List SpbVote) (used : List ℕ) (w : ℕ)
      → All IsChecked shares
      → Distinct (seen (signed_shares shares) used)
      → w ≡ stake_of c used
      → shares_weight c shares w ≡ ok (stake_of c (seen (signed_shares shares) used))
  unfolding seen shares_weight
  shares_weight-exact [] used w h d e = rw e
  shares_weight-exact (v ∷ shares) used w h d e =
      let d' : Distinct (v.author ∷ used) =
        Distinct-seen (signed_shares shares) (v.author ∷ used) d in
      rw (checked-rights v h.0) (
        shares_weight-exact shares (v.author ∷ used) (add32 w (stake c v.author)) h.1 d (
          unfold stake_of in
          omega (
            arith,
            stake_of-le-total c (v.author ∷ used) fits d',
            total_votes-eq-exact_sum c fits,
          )))

  verify_shares-checked :
      (shares : List SpbVote) → All IsChecked shares → verify_shares crypto c shares ≡ ok tt
  unfolding verify_shares
  verify_shares-checked [] h = refl
  verify_shares-checked (v ∷ shares) h = rw (h.0, verify_shares-checked shares h.1) refl

  record Gathers (m : ProofMaker) : Type 0 where
    used_votes : m.used ≡ seen (signed_shares m.votes) []
    distinct : Distinct m.used
    covered : m.weight ≤ stake_of c m.used
    checked : All IsChecked m.votes

  grown-Gathers :
      (m : ProofMaker) (v : SpbVote) (w : ℕ)
      → mem v.author m.used ≡ false
      → w ≤ add32 m.weight (stake c v.author)
      → IsChecked v
      → Gathers m
      → Gathers (grown_proof m v w)
  unfolding stake_of
  grown-Gathers m v w new le h k =
      let d' : Distinct (v.author ∷ m.used) = (new, k.distinct) in
      record {
        used_votes =
            ap (◌∷◌ v.author) k.used_votes
            ∙ sym (seen-snoc (signed_shares m.votes) (v.author, v.signature) [])
            ∙ ap (λ s. seen s []) (sym (signed_shares-snoc m.votes v));
        distinct = d';
        covered = omega (
          arith,
          le,
          k.covered,
          stake_of-le-total c (v.author ∷ m.used) fits d',
          total_votes-eq-exact_sum c fits,
        );
        checked = All-snoc IsChecked m.votes v k.checked h;
      }

  gathered-verifies :
      (m : ProofMaker) (phase round height : ℕ)
      → Gathers m
      → quorum_threshold c ≤ stake_of c m.used
      → verify_proof crypto c
          (record { phase = phase; round = round; height = height; shares = m.votes })
        ≡ ok tt
  unfolding verify_proof
  gathered-verifies m phase round height k full =
      let weighed =
        shares_weight-exact m.votes [] 0 k.checked (rw k.used_votes at k.distinct)
          (unfold stake_of in refl) in
      let reached : leb (quorum_threshold c) (stake_of c (seen (signed_shares m.votes) [])) ≡ true =
        rw (← k.used_votes) (ground arith) in
      let quorum = verify_shares-checked m.votes k.checked in
      elim (Bool-cases (leb phase 0)) [
        | inl first ↦ rw first refl
        | inr later ↦
            let lock : leb 1 phase ≡ true = ground arith in
            rw (later, lock, weighed, reached, quorum) refl
      ]

  made_proofs-verify-from :
      (m : ProofMaker) (votes : List SpbVote)
      → Gathers m
      → All IsChecked votes
      → All (λ p. verify_proof crypto c p ≡ ok tt) (made_proofs m votes c)
  unfolding made_proofs made_proof append_spb_vote add
  made_proofs-verify-from m [] k h = tt
  made_proofs-verify-from m (v ∷ votes) k h =
      let w : ℕ = add32 m.weight (stake c v.author) in
      elim (Bool-cases (mem v.author m.used)) [
        | inl old ↦ rw old (made_proofs-verify-from m votes k h.1)
        | inr new ↦
            let empty = grown-Gathers m v 0 new (omega arith) h.0 k in
            let all_of = grown-Gathers m v w new (omega arith) h.0 k in
            elim (Bool-cases (leb (quorum_threshold c) w)) [
              | inl high ↦
                  rw (new, high)
                    (
                      gathered-verifies (grown_proof m v w) ((v.phase + 1) % 256) v.round v.height
                          all_of (ground (arith, all_of.covered)),
                      made_proofs-verify-from (grown_proof m v 0) votes empty h.1,
                    )
              | inr low ↦
                  rw (new, low) (made_proofs-verify-from (grown_proof m v w) votes all_of h.1)
            ]
      ]

-- Every proof that a maker, empty at first, makes of votes that passed their check passes its own,
-- if the stakes fit a u32 together.
pub made_proofs-verify :
    (crypto : Crypto) (c : Committee) (votes : List SpbVote)
    → Fits c
    → All (λ v. verify_spb_vote crypto c v ≡ ok tt) votes
    → All (λ p. verify_proof crypto c p ≡ ok tt) (made_proofs new_proof_maker votes c)
unfolding seen stake_of
made_proofs-verify crypto c votes fits h =
    made_proofs-verify-from crypto c fits new_proof_maker votes
      (record { used_votes = refl; distinct = tt; covered = omega arith; checked = tt }) h
