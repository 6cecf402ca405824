-- ===== src/Messages/Quorums.antt =====
-- What the check of a QC (QC::verify in consensus/src/messages.rs) accepts.
use gnosis.Messages.Digests.{qc_digest}
use gnosis.Config.Quorum.{common, quorum_intersection}
use gnosis.Prelude.Words.{add32, u32_mod}
use gnosis.Error.{ok, >>=-eq-ok, ensure, qc_requires_quorum, ensure-eq-ok}
use gnosis.Config.Stake.{Fits, Distinct, stake_of, stake_of-le-total, total_votes-eq-exact_sum}
use gnosis.Messages.Checks.{qc_weight, verify_qc}
use gnosis.Prelude.Map.{add, mem}
use gnosis.Prelude.{
  List, ℕ, ◌≡◌, [], false, ◌*◌, ◌∷◌, ◌++◌, ◌<◌, arith, All, ◌≤◌, ◌+◌, ltb, all, refl, nat_eq,
  Bool-cases, true, inl, inr, ltb→lt, leb, map, ◌∙◌, leb→le,
}
use gnosis.Crypto.{Crypto, BatchIsSound, PublicKey, verify_batch, Signature}
use gnosis.Config.{Committee, stake, quorum_threshold, total_votes}
use gnosis.Messages.{Qc}

-- The authors of votes, the last first, on top of those used before.
unfoldable pub seen : List (PublicKey × Signature) → List PublicKey → List PublicKey
seen [] used = used
seen (v ∷ votes) used = seen votes (v.0 ∷ used)

abbrev pub voters : Qc → List PublicKey
voters qc = seen qc.votes []

pub seen-snoc :
    (votes : List (PublicKey × Signature)) (v : PublicKey × Signature) (used : List PublicKey)
    → seen (votes ++ v ∷ []) used ≡ v.0 ∷ seen votes used
unfolding seen
seen-snoc [] v used = refl
seen-snoc (w ∷ votes) v used = seen-snoc votes v (w.0 ∷ used)

pub Distinct-seen :
    (votes : List (PublicKey × Signature)) (used : List PublicKey)
    → Distinct (seen votes used)
    → Distinct used
unfolding seen
Distinct-seen [] used d = d
Distinct-seen (v ∷ votes) used d = (Distinct-seen votes (v.0 ∷ used) d).1

add-new : (k : ℕ) (used : List ℕ) → mem k used ≡ false → add k used ≡ k ∷ used
unfolding add
add-new k used h = rw h

-- One round of the loop of QC::verify, taken apart.
qc_weight-step :
    (c : Committee) (v : PublicKey × Signature) (votes : List (PublicKey × Signature))
    (used : List PublicKey) (w r : ℕ)
    → qc_weight c (v ∷ votes) used w ≡ ok r
    → (mem v.0 used ≡ false)
      × (0 < stake c v.0)
      × (qc_weight c votes (add v.0 used) (add32 w (stake c v.0)) ≡ ok r)
unfolding qc_weight
qc_weight-step c v votes used w r h = elim (Bool-cases (mem v.0 used)) [
  | inl again ↦ cc (rw again at h)
  | inr new ↦ elim (Bool-cases (ltb 0 (stake c v.0))) [
    | inl rights ↦ (new, ltb→lt _ _ rights, (rw (new, rights) at h))
    | inr none' ↦ cc (rw (new, none') at h)
  ]
]

ok_injective : (r w : ℕ) → ok w ≡ ok r → r ≡ w
ok_injective r w h = cc

verify_batch_sound :
    (crypto : Crypto) (d : ℕ) (votes : List (PublicKey × Signature)) {u : Unit {0}}
    → verify_batch crypto d votes ≡ ok u
    → crypto.batch (map (λ v. (d, v.1, v.0)) votes) ≡ true
unfolding verify_batch
verify_batch_sound crypto d votes h = ground arith

module _ (c : Committee) (fits : Fits c) where
  stake_of-bound : (xs : List ℕ) → Distinct xs → stake_of c xs < u32_mod
  stake_of-bound xs d =
      omega (arith, stake_of-le-total c xs fits d, total_votes-eq-exact_sum c fits)

  -- The loop succeeds on distinct authorities alone, and weighs them.
  qc_weight_sound :
      (votes : List (PublicKey × Signature)) (used : List PublicKey) (w r : ℕ)
      → Distinct used
      → w ≡ stake_of c used
      → qc_weight c votes used w ≡ ok r
      → Distinct (seen votes used) × (r ≡ stake_of c (seen votes used))
  unfolding seen qc_weight
  qc_weight_sound [] used w r d e h = (d, ok_injective r w h ∙ e)
  qc_weight_sound (v ∷ votes) used w r d e h =
      let (new, rights, rest) = qc_weight-step c v votes used w r h in
      let d' : Distinct (v.0 ∷ used) = (new, d) in
      qc_weight_sound votes (v.0 ∷ used) (add32 w (stake c v.0)) r d'
        (unfold stake_of in omega (arith, stake_of-bound (v.0 ∷ used) d'))
        (rw (add-new v.0 used new) at rest)

  -- It accepts every list of distinct authorities with voting rights.
  pub qc_weight_complete :
      (votes : List (PublicKey × Signature)) (used : List PublicKey) (w : ℕ)
      → All (λ v. 0 < stake c v.0) votes
      → Distinct (seen votes used)
      → w ≡ stake_of c used
      → qc_weight c votes used w ≡ ok (stake_of c (seen votes used))
  unfolding seen qc_weight
  qc_weight_complete [] used w rights d e = rw e
  qc_weight_complete (v ∷ votes) used w rights d e =
      let d' : Distinct (v.0 ∷ used) = Distinct-seen votes (v.0 ∷ used) d in
      let may : ltb 0 (stake c v.0) ≡ true = ground (arith, rights.0) in
      rw (d'.0, may, add-new v.0 used d'.0)
        (qc_weight_complete votes (v.0 ∷ used) (add32 w (stake c v.0)) rights.1 d
          (unfold stake_of in omega (arith, stake_of-bound (v.0 ∷ used) d')))

-- A QC that passes its check carries valid signatures of distinct authorities that hold a quorum, if
-- the batch verification is sound and the stakes fit a u32 together.
pub verify_qc_sound :
    (crypto : Crypto) (c : Committee) (qc : Qc)
    → BatchIsSound crypto
    → Fits c
    → verify_qc crypto c qc ≡ ok tt
    → Distinct (voters qc)
      × (quorum_threshold c ≤ stake_of c (voters qc))
      × (all (λ v. crypto.verify_strict v.0 (qc_digest crypto qc) v.1) qc.votes ≡ true)
unfolding verify_qc
verify_qc_sound crypto c qc sound fits h =
    let (w, weighed, rest) = >>=-eq-ok (qc_weight c qc.votes [] 0) _ h in
    let (d, e) = qc_weight_sound c fits qc.votes [] 0 w tt (unfold stake_of in refl) weighed in
    let (_, enough, signed) =
      >>=-eq-ok (ensure (leb (quorum_threshold c) w) qc_requires_quorum) _ rest in
    let reached =
      leb→le _ _ (ensure-eq-ok (leb (quorum_threshold c) w) qc_requires_quorum enough) in
    (
      d,
      omega (arith, reached, e),
      sound.rejects (qc_digest crypto qc) qc.votes
          (verify_batch_sound crypto (qc_digest crypto qc) qc.votes signed),
    )

-- Two QCs that pass, whatever they certify, share voters with f + 1 of N = 3 f + 1 votes, if the
-- batch verification is sound and the stakes fit a u32 together.
pub verified_qcs_intersect :
    (crypto : Crypto) (c : Committee) (p q : Qc) (f : ℕ)
    → BatchIsSound crypto
    → Fits c
    → total_votes c ≡ 3 * f + 1
    → verify_qc crypto c p ≡ ok tt
    → verify_qc crypto c q ≡ ok tt
    → f + 1 ≤ stake_of c (common (voters p) (voters q))
verified_qcs_intersect crypto c p q f sound fits total hp hq =
    let (dp, qp, _) = verify_qc_sound crypto c p sound fits hp in
    let (dq, qq, _) = verify_qc_sound crypto c q sound fits hq in
    (quorum_intersection c (voters p) (voters q) fits dp dq qp qq).1 f total
