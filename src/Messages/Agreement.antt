-- ===== src/Messages/Agreement.antt =====
-- What QCs of one height certify, where few authorities are faulty (QC::verify in
-- consensus/src/messages.rs).
use gnosis.Messages.Quorums.{seen, voters, verified_qcs_intersect, verify_qc_sound}
use gnosis.Messages.Digests.{qc_digest, hvote_digest}
use gnosis.Messages.Checks.{verify_qc}
use gnosis.Messages.{Qc, HVote, opt}
use gnosis.Config.Quorum.{common}
use gnosis.Config.Stake.{Fits, Distinct, stake_of}
use gnosis.Config.{Committee, total_votes}
use gnosis.Crypto.{Crypto, BatchIsSound, PublicKey, Signature}
use gnosis.Error.{ok}
use mathlib.Core.Bool.{true≢false}
use gnosis.Prelude.Map.{mem}
use gnosis.Prelude.{
  nat_eq, ℕ, List, Bool, ◌∷◌, ◌≡◌, true, false, arith, Bool-cases, ◌⊎◌, all, [], inl, All, inr,
  nat_eqb_iff, refl, sym, ◌==◌, ◌≤◌, ◌*◌, ◌∙◌, subst, ◌+◌, if_elim,
}

mem-common :
    (z : ℕ) (xs ys : List ℕ) → mem z (common xs ys) ≡ true → (mem z xs ≡ true) × (mem z ys ≡ true)
unfolding common mem
mem-common z xs [] h = cc
mem-common z xs (y ∷ ys) h = ground (arith, mem-common z xs ys)

Distinct-common : (xs ys : List ℕ) → Distinct ys → Distinct (common xs ys)
unfolding common
Distinct-common xs [] d = tt
Distinct-common xs (y ∷ ys) d =
    if_elim Distinct (mem y xs) (λ shared. (absent y xs ys d.0, Distinct-common xs ys d.1))
      (λ other. Distinct-common xs ys d.1)
  where
    absent : (y : ℕ) (xs ys : List ℕ) → mem y ys ≡ false → mem y (common xs ys) ≡ false
    absent y xs ys h = elim (Bool-cases (mem y (common xs ys))) [
      | inl there ↦ absurd (true≢false (sym (mem-common y xs ys there).1 ∙ h))
      | inr not_there ↦ not_there
    ]

-- An honest authority of a list, or none.
find_honest :
    (honest : PublicKey → Bool) (xs : List PublicKey)
    → ((z : PublicKey) × (mem z xs ≡ true) × (honest z ≡ true)) ⊎ All (λ x. honest x ≡ false) xs
unfolding mem
find_honest honest [] = inr tt
find_honest honest (x ∷ xs) = elim (Bool-cases (honest x)) [
  | inl good ↦ inl (x, rw ((nat_eqb_iff x x).1 refl) refl, good)
  | inr bad ↦ elim (find_honest honest xs) [
    | inl (z, there, good) ↦ inl (z, ground (arith, there), good)
    | inr none' ↦ inr (bad, none')
  ]
]

-- A voter's signature.
signature_of :
    (p : PublicKey × Signature → Bool) (z : PublicKey) (votes : List (PublicKey × Signature))
    (used : List PublicKey)
    → mem z (seen votes used) ≡ true
    → all p votes ≡ true
    → ((s : Signature) × (p (z, s) ≡ true)) ⊎ (mem z used ≡ true)
unfolding seen mem
signature_of p z [] used h valid = inr h
signature_of p z (v ∷ votes) used h valid =
    let here : p v ≡ true = ground (arith, valid) in
    let rest : all p votes ≡ true = ground (arith, valid) in
    elim (signature_of p z votes (v.0 ∷ used) h rest) [
      | inl found ↦ inl found
      | inr last ↦ elim (Bool-cases (v.0 == z)) [
        | inl same ↦ inl (v.1, subst (λ k. p (k, v.1) ≡ true) ((nat_eqb_iff v.0 z).0 same) here)
        | inr other ↦ inr (rw other at last)
      ]
    ]

-- The authorities that are honest, and the votes that each of them signs: no more than f votes are in
-- the hands of the others; an honest authority's signature is not forged; what it signs on the
-- optimistic path for one height of an epoch is for one block.
pub record Honest (crypto : Crypto) (c : Committee) (f : ℕ) : Type 1 where
  pub honest : PublicKey → Bool
  pub Signs : PublicKey → HVote → Type 0
  pub few : (xs : List PublicKey) → Distinct xs → All (λ x. honest x ≡ false) xs → stake_of c xs ≤ f
  pub unforged :
      (k : PublicKey) (d : ℕ) (s : Signature)
      → honest k ≡ true
      → crypto.verify_strict k d s ≡ true
      → (v : HVote) × Signs k v × (hvote_digest crypto v ≡ d)
  pub one_block :
      (k : PublicKey) (v w : HVote)
      → honest k ≡ true
      → Signs k v
      → Signs k w
      → (v.tag ≡ opt) × (w.tag ≡ opt)
      → (v.epoch ≡ w.epoch) × (v.height ≡ w.height)
      → v.hash ≡ w.hash

-- What an honest authority signs is told from the hash of a QC.
unfoldable pub Tells : (crypto : Crypto) (c : Committee) (f : ℕ) → Honest crypto c f → Qc → Type 0
Tells crypto c f h q =
    (k : PublicKey) (v : HVote)
    → h.honest k ≡ true
    → h.Signs k v
    → hvote_digest crypto v ≡ qc_digest crypto q
    → (v.hash ≡ q.hash) × (v.tag ≡ q.tag) × (v.epoch ≡ q.epoch) × (v.height ≡ q.height)

-- Two QCs of the optimistic path, of one epoch and one height, that pass their check certify one
-- block, if at most f of N = 3 f + 1 votes are in the hands of authorities whose signatures may be
-- forged, or who vote there for several blocks, and the hash tells the votes of the others apart. The
-- batch verification must be sound, and the stakes fit a u32 together.
pub qcs_agree :
    (crypto : Crypto) (c : Committee) (p q : Qc) (f : ℕ)
    → BatchIsSound crypto
    → Fits c
    → total_votes c ≡ 3 * f + 1
    → (h : Honest crypto c f) → Tells crypto c f h p
    → Tells crypto c f h q
    → verify_qc crypto c p ≡ ok tt
    → verify_qc crypto c q ≡ ok tt
    → (p.tag ≡ opt) × (q.tag ≡ opt)
    → (p.epoch ≡ q.epoch) × (p.height ≡ q.height)
    → p.hash ≡ q.hash
unfolding mem Tells
qcs_agree crypto c p q f sound fits total h tells_p tells_q hp hq (tag_p, tag_q) (epoch, height) =
    let many = verified_qcs_intersect crypto c p q f sound fits total hp hq in
    let (dp, _, sp) = verify_qc_sound crypto c p sound fits hp in
    let (dq, _, sq) = verify_qc_sound crypto c q sound fits hq in
    elim (find_honest h.honest (common (voters p) (voters q))) [
      | inl (z, there, good) ↦
          let (inp, inq) = mem-common z (voters p) (voters q) there in
          let (v, signs_v, ev) = voted p z good inp sp in
          let (w, signs_w, ew) = voted q z good inq sq in
          let (hash_v, tag_v, epoch_v, height_v) = tells_p z v good signs_v ev in
          let (hash_w, tag_w, epoch_w, height_w) = tells_q z w good signs_w ew in
          sym hash_v
          ∙ h.one_block z v w good signs_v signs_w (tag_v ∙ tag_p, tag_w ∙ tag_q)
              (epoch_v ∙ epoch ∙ sym epoch_w, height_v ∙ height ∙ sym height_w)
          ∙ hash_w
      | inr bad ↦
          let little =
            h.few (common (voters p) (voters q)) (Distinct-common (voters p) (voters q) dq) bad in
          absurd (omega (arith, many, little))
    ]
  where
    voted :
        (r : Qc) (z : PublicKey)
        → h.honest z ≡ true
        → mem z (voters r) ≡ true
        → all (λ v. crypto.verify_strict v.0 (qc_digest crypto r) v.1) r.votes ≡ true
        → (v : HVote) × h.Signs z v × (hvote_digest crypto v ≡ qc_digest crypto r)
    voted r z good there valid =
        elim (signature_of (λ v. crypto.verify_strict v.0 (qc_digest crypto r) v.1) z r.votes []
          there valid) [
            | inl (s, e) ↦ h.unforged z (qc_digest crypto r) s good e
            | inr nowhere ↦ absurd (true≢false (sym nowhere))
          ]
