-- ===== src/Core/Safety/Proposed.antt =====
-- What a proposed block needs to move a node: handle_opt_proposal of consensus/src/core.rs with
-- Block::verify and QC::verify of consensus/src/messages.rs.
use gnosis.Crypto.{Crypto, BatchIsSound, verify}
use gnosis.Error.{
  Outcome, ok, err, panic, out_of_fuel, epoch_end, unknown_authority, ensure, >>=-eq-ok,
  ensure-eq-ok,
}
use gnosis.Config.{Committee, stake, quorum_threshold}
use gnosis.Config.Stake.{Fits, Distinct, stake_of}
use gnosis.Messages.{Block, Qc, genesis_qc, hs_propose, qc_eq}
use gnosis.Messages.Digests.{block_digest, qc_digest}
use gnosis.Messages.Checks.{verify_block, verify_embedded_qc}
use gnosis.Messages.Quorums.{voters, verify_qc_sound}
use gnosis.Core.State.{◌>>=◌, get, lift, modify, pure, Env, Core}
use gnosis.Core.Calls.{Back}
use gnosis.Core.Opt.{handle_opt_proposal, leader_index}
use gnosis.Leader
use gnosis.Prelude.{
  ℕ, Option, ◌≡◌, ◌⊎◌, ◌<◌, ◌≤◌, inl, inr, true, false, all, some, none, ltb, Bool-cases, refl,
  arith, ◌++◌, ◌∷◌, [],
}

-- The QC is the genesis one, or it has valid signatures of distinct authorities that hold a quorum.
abbrev pub IsCertified : Crypto → Committee → Qc → Type 0
IsCertified crypto c qc =
    (qc_eq qc genesis_qc ≡ true)
    ⊎ (Distinct (voters qc)
        × (quorum_threshold c ≤ stake_of c (voters qc))
        × (all (λ v. crypto.verify_strict v.0 (qc_digest crypto qc) v.1) qc.votes ≡ true))

-- The block is by a leader of its height who may vote and signed it, and its QC is certified.
pub record IsBacked (crypto : Crypto) (s : Core) (block : Block) : Type 0 where
  pub index : ℕ
  pub leads : Leader.index_as_leader s.leader_elector block.author block.height ≡ ok (some index)
  pub votes : 0 < stake s.committee block.author
  pub signed : verify crypto block.signature (block_digest crypto block) block.author ≡ ok tt
  pub certified : IsCertified crypto s.committee block.qc

verify_embedded_qc-IsCertified :
    (crypto : Crypto) (c : Committee) (qc : Qc)
    → BatchIsSound crypto
    → Fits c
    → verify_embedded_qc crypto c qc ≡ ok tt
    → IsCertified crypto c qc
unfolding verify_embedded_qc
verify_embedded_qc-IsCertified crypto c qc sound fits h = elim (Bool-cases (qc_eq qc genesis_qc)) [
  | inl first ↦ inl first
  | inr other ↦ inr (verify_qc_sound crypto c qc sound fits (rw other at h))
]

verify_block-IsBacked :
    (crypto : Crypto) (s : Core) (block : Block) (i : ℕ)
    → BatchIsSound crypto
    → Fits s.committee
    → Leader.index_as_leader s.leader_elector block.author block.height ≡ ok (some i)
    → verify_block crypto s.committee block ≡ ok tt
    → IsBacked crypto s block
unfolding verify_block
verify_block-IsBacked crypto s block i sound fits leads h =
    let may : Outcome (Unit {0}) =
      ensure (ltb 0 (stake s.committee block.author)) (unknown_authority block.author) in
    let (_, allowed, rest) = >>=-eq-ok may _ h in
    let (_, signed, embedded) =
      >>=-eq-ok (verify crypto block.signature (block_digest crypto block) block.author) _ rest in
    let right = ensure-eq-ok (ltb 0 (stake s.committee block.author)) _ allowed in
    record {
      index = i;
      leads = leads;
      votes = ground (arith, right);
      signed = signed;
      certified = verify_embedded_qc-IsCertified crypto s.committee block.qc sound fits embedded;
    }

-- What becomes of a proposed block: it is of an earlier epoch and nothing happens, or it is refused
-- and nothing changes; it is of a later epoch, is kept and ends the epoch; or it is backed.
abbrev pub Judged : Env → Core → Block → Outcome (Unit {0}) × Core → Type 0
Judged env s block out =
    (((block.epoch < s.epoch) ⊎ (out.0 ≡ ok tt → ⊥)) × (out.1 ≡ s))
    ⊎ (((s.epoch < block.epoch)
          × (out.0 ≡ err (epoch_end s.epoch))
          × (out.1 ≡ record s {
            unhandle_message = s.unhandle_message ++ (block.epoch, hs_propose block) ∷ [];
          }))
        ⊎ ((block.epoch ≡ s.epoch) × IsBacked env.crypto s block))

-- A proposed block of the current epoch that changes anything of a node, or that the node handles
-- without an error, is by a leader of its height, who has a right to vote and signed it, and its QC
-- is the genesis one or has valid signatures of distinct authorities that hold a quorum. A block of
-- an earlier epoch changes nothing. A block of a later epoch is kept and ends the epoch, whatever
-- its author, signature and QC are. The batch verification must be sound, and the stakes fit a u32
-- together.
pub handle_opt_proposal-Judged :
    (env : Env) (rec : Back) (block : Block) (s : Core)
    → BatchIsSound env.crypto
    → Fits s.committee
    → Judged env s block (handle_opt_proposal env rec block s)
unfolding handle_opt_proposal leader_index ◌>>=◌ get lift modify pure
handle_opt_proposal-Judged env rec block s sound fits =
    elim (Bool-cases (ltb block.epoch s.epoch)) [
      | inl before ↦ inl (inl (ground (arith, before)), rw before refl)
      | inr not_before ↦ elim (Bool-cases (ltb s.epoch block.epoch)) [
        | inl after ↦
            inr (
              inl (ground (arith, after), rw (not_before, after) refl, rw (not_before, after) refl))
        | inr not_after ↦ led not_before not_after _ refl
      ]
    ]
  where
    checked :
        (i : ℕ)
        → ltb block.epoch s.epoch ≡ false
        → ltb s.epoch block.epoch ≡ false
        → Leader.index_as_leader s.leader_elector block.author block.height ≡ ok (some i)
        → (v : Outcome (Unit {0})) → verify_block env.crypto s.committee block ≡ v
        → Judged env s block (handle_opt_proposal env rec block s)
    checked i b a e (ok u) v =
        inr (inr (ground (arith, a, b), verify_block-IsBacked env.crypto s block i sound fits e v))
    checked i b a e (err why) v = inl (inr (rw (b, a, e, v) (λ h. cc)), rw (b, a, e, v) refl)
    checked i b a e panic v = inl (inr (rw (b, a, e, v) (λ h. cc)), rw (b, a, e, v) refl)
    checked i b a e out_of_fuel v = inl (inr (rw (b, a, e, v) (λ h. cc)), rw (b, a, e, v) refl)

    led :
        ltb block.epoch s.epoch ≡ false
        → ltb s.epoch block.epoch ≡ false
        → (i : Outcome (Option ℕ))
        → Leader.index_as_leader s.leader_elector block.author block.height ≡ i
        → Judged env s block (handle_opt_proposal env rec block s)
    led b a (ok (some i)) e = checked i b a e _ refl
    led b a (ok none) e = inl (inr (rw (b, a, e) (λ h. cc)), rw (b, a, e) refl)
    led b a (err why) e = inl (inr (rw (b, a, e) (λ h. cc)), rw (b, a, e) refl)
    led b a panic e = inl (inr (rw (b, a, e) (λ h. cc)), rw (b, a, e) refl)
    led b a out_of_fuel e = inl (inr (rw (b, a, e) (λ h. cc)), rw (b, a, e) refl)
