-- ===== src/Aggregator/Certificates.antt =====
-- QCMaker::append of consensus/src/aggregator.rs against QC::verify of consensus/src/messages.rs.
use gnosis.Prelude.Words.{add32}
use gnosis.Aggregator.Quorums.{made, append_hvote-cases, grown}
use gnosis.Prelude.Map.{mem}
use gnosis.Config.Stake.{Distinct, stake_of, Fits, stake_of-le-total, total_votes-eq-exact_sum}
use gnosis.Messages.Digests.{hvote_digest, qc_digest}
use gnosis.Messages.Quorums.{seen, qc_weight_complete, seen-snoc}
use gnosis.Error.{ok, >>=-eq-ok, ensure, unknown_authority, ensure-eq-ok}
use gnosis.Messages.Checks.{verify_hvote, verify_qc}
use gnosis.Prelude.{
  ℕ, List, ◌<◌, ◌≡◌, All, ◌&&◌, ◌++◌, true, [], ◌∷◌, ◌≤◌, ltb, ltb→lt, arith, all, false, refl, inl,
  ap, inr, ◌∙◌, sym, leb, nat_eq,
}
use gnosis.Crypto.{Crypto, BatchIsSound, Signature, verify, verify_batch}
use gnosis.Config.{Committee, stake, quorum_threshold}
use gnosis.Messages.{HVote}
use gnosis.Aggregator.{QcMaker, new_qc_maker, qc_of}

verify_sound :
    (crypto : Crypto) (s : Signature) (d k : ℕ) {u : Unit {0}}
    → verify crypto s d k ≡ ok u
    → (crypto.signature_from_bytes s && crypto.key_from_bytes k ≡ true)
      × (crypto.verify_strict k d s ≡ true)
unfolding verify
verify_sound crypto s d k h = ground arith

pub All-snoc {κ} :
    {A : Type 0} (P : A → Type κ) (xs : List A) (x : A) → All P xs → P x → All P (xs ++ x ∷ [])
All-snoc P [] x h p = (p, tt)
All-snoc P (y ∷ xs) x h p = (h.0, All-snoc P xs x h.1 p)

module _ (crypto : Crypto) (c : Committee) (d : ℕ) where
  -- A vote that passed its check, for what the digest `d` stands for.
  abbrev pub IsVoteFor : HVote → Type 0
  IsVoteFor v = (verify_hvote crypto c v ≡ ok tt) × (hvote_digest crypto v ≡ d)

  -- A signature in a QC, with the rights of its author.
  abbrev IsSigned : ℕ × Signature → Type 0
  IsSigned p =
      (0 < stake c p.0)
      × (crypto.signature_from_bytes p.1 && crypto.key_from_bytes p.0 ≡ true)
      × (crypto.verify_strict p.0 d p.1 ≡ true)

  record Collects (m : QcMaker) : Type 0 where
    used_votes : m.used ≡ seen m.votes []
    distinct : Distinct m.used
    covered : m.weight ≤ stake_of c m.used
    signed : All IsSigned m.votes

  vote-IsSigned : (v : HVote) → IsVoteFor v → IsSigned (v.author, v.signature)
  unfolding verify_hvote
  vote-IsSigned v (passed, same) =
      let (_, rights, signed) =
        >>=-eq-ok (ensure (ltb 0 (stake c v.author)) (unknown_authority v.author)) _ passed in
      let (parsed, strict) =
        verify_sound crypto v.signature (hvote_digest crypto v) v.author signed in
      (ltb→lt _ _ (ensure-eq-ok _ _ rights), parsed, (rw same at strict))

module _ (crypto : Crypto) (sound : BatchIsSound crypto) (c : Committee) (fits : Fits c)
    (d : ℕ) where
  -- The weight after a vote of a new author is stake of the distinct authors.
  new_weight :
      (m : QcMaker) (x : ℕ)
      → mem x m.used ≡ false
      → Collects crypto c d m
      → add32 m.weight (stake c x) ≤ stake_of c (x ∷ m.used)
  unfolding stake_of
  new_weight m x new k =
      let d' : Distinct (x ∷ m.used) = (new, k.distinct) in
      omega (
        arith,
        k.covered,
        stake_of-le-total c (x ∷ m.used) fits d',
        total_votes-eq-exact_sum c fits,
      )

  grown-Collects :
      (m : QcMaker) (v : HVote) (w : ℕ)
      → mem v.author m.used ≡ false
      → w ≤ stake_of c (v.author ∷ m.used)
      → IsVoteFor crypto c d v
      → Collects crypto c d m
      → Collects crypto c d (grown m v w)
  grown-Collects m v w new le vote k = record {
    used_votes =
        ap (◌∷◌ v.author) k.used_votes ∙ sym (seen-snoc m.votes (v.author, v.signature) []);
    distinct = (new, k.distinct);
    covered = le;
    signed = All-snoc (IsSigned crypto c d) m.votes _ k.signed (vote-IsSigned crypto c d v vote);
  }

  all-parsed :
      (votes : List (ℕ × Signature))
      → All (IsSigned crypto c d) votes
      → all (λ v. crypto.signature_from_bytes v.1 && crypto.key_from_bytes v.0) votes ≡ true
  all-parsed [] h = refl
  all-parsed (v ∷ votes) h = ground (arith, all-parsed votes h.1)

  all-strict :
      (votes : List (ℕ × Signature))
      → All (IsSigned crypto c d) votes
      → all (λ v. crypto.verify_strict v.0 d v.1) votes ≡ true
  all-strict [] h = refl
  all-strict (v ∷ votes) h = ground (arith, all-strict votes h.1)

  rights :
      (votes : List (ℕ × Signature))
      → All (IsSigned crypto c d) votes
      → All (λ v. 0 < stake c v.0) votes
  rights [] h = tt
  rights (v ∷ votes) h = (h.0.0, rights votes h.1)

  -- The votes of a maker that hold a quorum make a QC that passes.
  qc_of-verifies :
      (m : QcMaker) (v : HVote)
      → Collects crypto c d m
      → hvote_digest crypto v ≡ d
      → quorum_threshold c ≤ stake_of c m.used
      → verify_qc crypto c (qc_of v m.votes) ≡ ok tt
  unfolding verify_qc verify_batch qc_of qc_digest hvote_digest
  qc_of-verifies m v k same full =
      let weighed =
        qc_weight_complete c fits m.votes [] 0 (rights m.votes k.signed)
          (rw k.used_votes at k.distinct) (unfold stake_of in refl) in
      let reached : leb (quorum_threshold c) (stake_of c (seen m.votes [])) ≡ true =
        rw (← k.used_votes) (ground arith) in
      rw
        (
          weighed,
          reached,
          same,
          all-parsed m.votes k.signed,
          sound.accepts d m.votes (all-strict m.votes k.signed),
        )
        refl

  made-verifies-from :
      (m : QcMaker) (votes : List HVote)
      → Collects crypto c d m
      → All (IsVoteFor crypto c d) votes
      → All (λ qc. verify_qc crypto c qc ≡ ok tt) (made m votes c)
  unfolding made
  made-verifies-from m [] k h = tt
  made-verifies-from m (v ∷ votes) k h = elim (append_hvote-cases m v c) [
    | inl (old, e) ↦ rw e (made-verifies-from m votes k h.1)
    | inr (inl (new, full, e)) ↦
        let reached = new_weight m v.author new k in
        let k' = grown-Collects m v 0 new (omega arith) h.0 k in
        rw e (
          qc_of-verifies (grown m v 0) v k' h.0.1 (omega (arith, reached)),
          made-verifies-from (grown m v 0) votes k' h.1,
        )
    | inr (inr (new, e)) ↦ rw e (
        made-verifies-from (grown m v (add32 m.weight (stake c v.author))) votes
          (grown-Collects m v _ new (new_weight m v.author new k) h.0 k) h.1)
  ]

-- Every QC that a maker, empty at first, makes of votes that passed their check and have one digest
-- passes its own check, if the batch verification is sound and the stakes fit a u32 together.
pub made-verifies :
    (crypto : Crypto) (c : Committee) (d : ℕ) (votes : List HVote)
    → BatchIsSound crypto
    → Fits c
    → All (IsVoteFor crypto c d) votes
    → All (λ qc. verify_qc crypto c qc ≡ ok tt) (made new_qc_maker votes c)
made-verifies crypto c d votes sound fits h =
    made-verifies-from crypto sound c fits d new_qc_maker votes empty h
  where
    empty : Collects crypto c d new_qc_maker
    empty = record {
      used_votes = unfold seen in refl;
      distinct = tt;
      covered = omega arith;
      signed = tt;
    }
