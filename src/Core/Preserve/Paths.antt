-- ===== src/Core/Preserve/Paths.antt =====
-- The handlers of Core/Prepare, Core/Fallback, Core/Opt and Core/Loop preserve a closed predicate.
use gnosis.Prelude.Words.{u32_mod}
use gnosis.Core.Preserve.Rounds.{broadcast_pes_propose-Preserves}
use gnosis.Config.{quorum_threshold}
use gnosis.Core.Preserve.Agreement.{when_checked-Preserves}
use gnosis.Prelude.Map.{get_or, lookup, contains_key, insert}
use gnosis.Crypto.{Signature}
use gnosis.Core.Preserve.Basics.{
  quiet, store_block-Preserves, generate_proposal-Preserves, aggregate-Preserves,
  mempool_verify-Preserves, deliver_above-Preserves, transmit-Preserves, process_qc-Preserves,
  terminate_smvba-Preserves,
}
use gnosis.Messages.{HVote, Block, Qc, PrePare, opt, pes, fallback}
use gnosis.Prelude.{
  ℕ, Option, List, nat_eqb, leb, ltb, false, length, ◌||◌, not, nat_eq, [], refl, ◌%◌, ◌&&◌, none,
  some, pair_eq,
}
use gnosis.Core.Opt.{handle_opt_vote, leader_index}
use gnosis.Core.Fallback.{
  on_fallback_qc, handle_fallback_vote, process_fallback_propose, handle_fallback_propose,
  broadcast_fallback_propose, invoke_fallback, make_fallback_vote,
}
use gnosis.Core.Prepare.{
  smvba_input, invoke_smvba, fast_commit, on_opt_prepare, on_pes_prepare, handle_par_prepare,
  active_prepare_phase,
}
use gnosis.Core.State.{Core, Env, lift}
use gnosis.Core.Calls.{Call, Back}
use gnosis.Core.Preserve.{
  Preserves, Closed, ◌▷◌, Preserves-get, Preserves-if, Preserves-Option, Preserves-lift,
  Preserves-pure,
}

pub leader_index-Preserves :
    {P : Core → Type 0} (name height : ℕ) → Preserves P (leader_index name height)
unfolding leader_index lift
leader_index-Preserves name height = record { at = λ s h. h }

module _ {P : Core → Type 0} (c : Closed P) (env : Env) (rec : Back)
    (back : (k : Call) → Preserves P (rec k)) where
  open c use {framed}

  smvba_input-Preserves : (h val : ℕ) (qc : Option Qc) → Preserves P (smvba_input env rec h val qc)
  unfolding smvba_input
  smvba_input-Preserves h val qc = Preserves-get ▷ λ s.
      Preserves-if (nat_eqb val opt) (Preserves-pure _)
        (generate_proposal-Preserves framed env _ _ _ _)

  invoke_smvba-Preserves :
      (h val : ℕ) (sigs : List (ℕ × Signature)) (qc : Option Qc)
      → Preserves P (invoke_smvba env rec h val sigs qc)
  unfolding invoke_smvba
  invoke_smvba-Preserves h val sigs qc = Preserves-get ▷ λ s. quiet framed _ (λ s. refl) ▷ λ _.
      Preserves-if (get_or h false s.smvba_is_invoke) (Preserves-pure _) (
        quiet framed _ (λ s. refl) ▷ λ _. smvba_input-Preserves h val qc ▷ λ b.
        quiet framed _ (λ s. refl) ▷ λ _. broadcast_pes_propose-Preserves c env rec back _ _)

  fast_commit-Preserves : (qc : Qc) → Preserves P (fast_commit env rec qc)
  unfolding fast_commit
  fast_commit-Preserves qc = Preserves-get ▷ λ s.
      Preserves-Option (lookup qc.hash s.store) (Preserves-pure _)
        (λ b. deliver_above-Preserves c env b ▷ λ _. Preserves-pure _)

  on_opt_prepare-Preserves : (p : PrePare) → Preserves P (on_opt_prepare env rec p)
  unfolding on_opt_prepare
  on_opt_prepare-Preserves p = Preserves-get ▷ λ s. Preserves-lift _ ▷ λ _.
      quiet framed _ (λ s. refl) ▷ λ _.
      Preserves-if
        (nat_eqb
          (length (insert p.author p.signature (get_or p.height [] s.par_prepare_opts)) % u32_mod)
          (quorum_threshold s.committee))
        (fast_commit-Preserves p.qc ▷ λ _.
          Preserves-if (s.pes_path && leb 2 p.height) (terminate_smvba-Preserves framed _)
            (Preserves-pure _))
        (Preserves-pure _)
      ▷ λ _. invoke_smvba-Preserves p.height opt [] (some p.qc)

  on_pes_prepare-Preserves : (p : PrePare) → Preserves P (on_pes_prepare env rec p)
  unfolding on_pes_prepare
  on_pes_prepare-Preserves p = Preserves-get ▷ λ s. Preserves-lift _ ▷ λ _.
      quiet framed _ (λ s. refl) ▷ λ _.
      Preserves-if
        (leb (quorum_threshold s.committee)
          (length (insert p.author p.signature (get_or p.height [] s.par_prepare_pess)) % u32_mod))
        (quiet framed _ (λ s. refl) ▷ λ _.
          Preserves-Option (get_or (p.height, s.fallback_length) none s.fallback_high_qc)
            (Preserves-pure _) (λ qc. invoke_smvba-Preserves p.height pes _ (some qc)))
        (Preserves-pure _)

  pub handle_par_prepare-Preserves : (p : PrePare) → Preserves P (handle_par_prepare env rec p)
  unfolding handle_par_prepare
  handle_par_prepare-Preserves p = Preserves-get ▷ λ s. Preserves-lift _ ▷ λ _.
      when_checked-Preserves s _ ▷ λ _. quiet framed _ (λ s. refl) ▷ λ _.
      Preserves-if (nat_eqb p.val opt) (on_opt_prepare-Preserves p)
        (Preserves-if (nat_eqb p.val pes) (on_pes_prepare-Preserves p) (Preserves-lift _))

  pub active_prepare_phase-Preserves :
      (h : ℕ) (qc : Qc) (val : ℕ) → Preserves P (active_prepare_phase env rec h qc val)
  unfolding active_prepare_phase
  active_prepare_phase-Preserves h qc val = Preserves-get ▷ λ s.
      Preserves-if (contains_key h s.prepare_tag) (Preserves-pure _) (
        quiet framed _ (λ s. refl) ▷ λ _.
        transmit-Preserves c _ _ _ _ _ refl ▷ λ _. handle_par_prepare-Preserves _)

  on_fallback_qc-Preserves : (qc : Qc) → Preserves P (on_fallback_qc env rec qc)
  unfolding on_fallback_qc
  on_fallback_qc-Preserves qc = quiet framed _ (λ s. refl) ▷ λ _. Preserves-get ▷ λ s.
      Preserves-if (nat_eqb qc.proposer s.name)
        (Preserves-if (ltb qc.round s.fallback_length)
          (generate_proposal-Preserves framed env _ _ _ _ ▷ λ b. back _)
          (Preserves-if (nat_eqb qc.round s.fallback_length)
            (active_prepare_phase-Preserves qc.height qc pes) (Preserves-pure _)))
        (Preserves-pure _)

  pub handle_fallback_vote-Preserves : (v : HVote) → Preserves P (handle_fallback_vote env rec v)
  unfolding handle_fallback_vote
  handle_fallback_vote-Preserves v = Preserves-get ▷ λ s. Preserves-lift _ ▷ λ _.
      when_checked-Preserves s _ ▷ λ _. aggregate-Preserves framed _ ▷ λ o.
      Preserves-Option o (Preserves-pure _) on_fallback_qc-Preserves

  pub process_fallback_propose-Preserves :
      (b : Block) → Preserves P (process_fallback_propose env rec b)
  unfolding process_fallback_propose
  process_fallback_propose-Preserves b = Preserves-get ▷ λ s. Preserves-lift _ ▷ λ _.
      store_block-Preserves framed env b ▷ λ _.
      Preserves-Option (make_fallback_vote env rec s b) (Preserves-pure _) (λ v.
        Preserves-if (not (nat_eqb b.author s.name)) (transmit-Preserves c _ _ _ _ _ refl)
          (handle_fallback_vote-Preserves v))

  pub handle_fallback_propose-Preserves :
      (b : Block) → Preserves P (handle_fallback_propose env rec b)
  unfolding handle_fallback_propose
  handle_fallback_propose-Preserves b = Preserves-get ▷ λ s. Preserves-lift _ ▷ λ _.
      when_checked-Preserves s _ ▷ λ _.
      Preserves-if (ltb s.epoch b.epoch) (quiet framed _ (λ s. refl) ▷ λ _. Preserves-lift _) (
        mempool_verify-Preserves framed env b fallback ▷ λ present.
        Preserves-if present (process_fallback_propose-Preserves b) (Preserves-pure _))

  pub broadcast_fallback_propose-Preserves :
      (b : Block) → Preserves P (broadcast_fallback_propose env rec b)
  unfolding broadcast_fallback_propose
  broadcast_fallback_propose-Preserves b = Preserves-get ▷ λ s. quiet framed _ (λ s. refl) ▷ λ _.
      Preserves-if (get_or b.height false s.smvba_is_invoke) (Preserves-pure _)
        (transmit-Preserves c _ _ _ _ _ refl ▷ λ _. process_fallback_propose-Preserves b)

  pub invoke_fallback-Preserves :
      (h : ℕ) (qc : Option Qc) → Preserves P (invoke_fallback env rec h qc)
  unfolding invoke_fallback
  invoke_fallback-Preserves h qc = Preserves-get ▷ λ s.
      Preserves-if (contains_key h s.fallback_is_invoke) (Preserves-pure _) (
        quiet framed _ (λ s. refl) ▷ λ _. generate_proposal-Preserves framed env _ _ _ _ ▷ λ b.
        broadcast_fallback_propose-Preserves b)

  pub handle_opt_vote-Preserves : (v : HVote) → Preserves P (handle_opt_vote env rec v)
  unfolding handle_opt_vote
  handle_opt_vote-Preserves v = Preserves-get ▷ λ s.
      Preserves-if (ltb v.height s.height || ltb v.epoch s.epoch) (Preserves-pure _) (
        leader_index-Preserves _ _ ▷ λ o. Preserves-Option o (Preserves-lift _) (λ i.
          Preserves-lift _ ▷ λ _. aggregate-Preserves framed _ ▷ λ q.
          Preserves-Option q (Preserves-pure _) (λ qc. process_qc-Preserves framed qc ▷ λ _.
          Preserves-if (nat_eqb i 0) (back _) (quiet framed _ (λ s. refl)))))
