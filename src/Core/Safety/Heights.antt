-- ===== src/Core/Safety/Heights.antt =====
-- Heights and QCs: process_qc of consensus/src/core.rs.
use gnosis.Prelude.Words.{u64_mod}
use gnosis.Prelude.{◌+◌, ◌<◌, ◌≤◌, ◌≡◌, ◌⊎◌, Bool-cases, ltb, inl, arith, inr, true, refl}
use gnosis.Core.State.{Core}
use gnosis.Messages.{Qc}
use gnosis.Core.Round.{
  process_qc, advance_height, update_high_qc, update_smvba_state, update_prepare_state,
}

-- A QC that is processed, of a height that does not wrap around, leaves a node whose height and
-- whose highest QC did not fall, with the height above both the QC and the highest QC, and the
-- highest QC not below the QC; the highest QC is one of the two. The height must be above the
-- highest QC before.
pub process_qc-heights :
    (qc : Qc) (s : Core)
    → qc.height + 1 < u64_mod
    → s.high_qc.height < s.height
    → (s.height ≤ (process_qc qc s).height)
      × (qc.height < (process_qc qc s).height)
      × ((process_qc qc s).high_qc.height < (process_qc qc s).height)
      × (qc.height ≤ (process_qc qc s).high_qc.height)
      × (s.high_qc.height ≤ (process_qc qc s).high_qc.height)
      × (((process_qc qc s).high_qc ≡ qc) ⊎ ((process_qc qc s).high_qc ≡ s.high_qc))
unfolding process_qc advance_height update_high_qc update_smvba_state update_prepare_state
process_qc-heights qc s small low = elim (Bool-cases (ltb qc.height s.height)) [
  | inl old ↦ elim (Bool-cases (ltb s.high_qc.height qc.height)) [
    | inl high ↦
        rw (old, high)
          (ground arith, ground arith, ground arith, ground arith, ground arith, inl refl)
    | inr same ↦
        rw (old, same)
          (ground arith, ground arith, ground arith, ground arith, ground arith, inr refl)
  ]
  | inr new ↦
      let high : ltb s.high_qc.height qc.height ≡ true = ground arith in
      rw (new, high)
        (ground arith, ground arith, ground arith, ground arith, ground arith, inl refl)
]
