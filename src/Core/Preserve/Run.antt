-- ===== src/Core/Preserve/Run.antt =====
-- The optimistic path and the event loop (Core/Opt, Core/Loop) preserve a closed predicate.
use gnosis.Core.Preserve.Agreement.{handle_smvba_halt-Preserves, process_par_out-Preserves}
use gnosis.Core.Preserve.Rounds.{
  broadcast_pes_propose-Preserves, invoke_done_and_share-Preserves, handle_spb_proposal-Preserves,
  handle_spb_vote-Preserves, handle_spb_finish-Preserves, handle_smvba_done_with_share-Preserves,
  handle_smvba_prevote-Preserves, handle_smvba_mvote-Preserves,
}
use gnosis.Core.Round.{is_optimistic}
use gnosis.Core.Preserve.Voting.{vote_for-Preserves}
use gnosis.Core.Preserve.Paths.{
  leader_index-Preserves, active_prepare_phase-Preserves, broadcast_fallback_propose-Preserves,
  invoke_fallback-Preserves, handle_opt_vote-Preserves, handle_fallback_propose-Preserves,
  handle_fallback_vote-Preserves, process_fallback_propose-Preserves, handle_par_prepare-Preserves,
}
use gnosis.Core.Preserve.Basics.{
  deliver_above-Preserves, terminate_smvba-Preserves, quiet, generate_proposal-Preserves,
  get_ancestors-Preserves, process_qc-Preserves, transmit-Preserves, store_block-Preserves,
  mempool_verify-Preserves, handle_sync_request-Preserves,
}
use gnosis.Messages.{
  Block, ConsensusMessage, hs_propose, hs_vote, opt, hs_loop_back, sync_request, sync_reply,
  fb_propose, fb_vote, fb_loop_back, spb_propose, spb_vote, spb_finish, spb_done_and_share,
  smvba_pre_vote, smvba_vote, smvba_halt, par_prepare, par_loop_back,
}
use gnosis.Core.Loop.{
  on_event, boot, call, run_events, run, Event, core_message, goes_on, on_core_message,
  smvba_message, on_smvba_message, timer_fired,
}
use gnosis.Core.Opt.{
  commit_grandparent, beside, process_opt_block, handle_opt_proposal, opt_propose,
}
use gnosis.Prelude.{
  if◌then◌else◌, Bool, ℕ, List, ◌&&◌, ltb, is_some, suc, ◌∷◌, [], nat_eqb, not, refl, ◌||◌, zero,
  true, false,
}
use gnosis.Core.State.{Core, Env}
use gnosis.Core.Calls.{
  Call, Back, call_fallback_propose, call_invoke_fallback, call_pes_propose, call_done_and_share,
  call_opt_propose,
}
use gnosis.Core.Preserve.{
  Preserves, Closed, ◌▷◌, Preserves-get, Preserves-if, Preserves-lift, Preserves-pure,
  Preserves-Option, Preserves-ignore, Preserves-expect,
}

module _ {P : Core → Type 0} (c : Closed P) (env : Env) (rec : Back)
    (back : (k : Call) → Preserves P (rec k)) where
  open c use {framed}

  commit_grandparent-Preserves : (b : Block) → Preserves P (commit_grandparent env rec b)
  unfolding commit_grandparent
  commit_grandparent-Preserves b = deliver_above-Preserves c env b ▷ λ _. Preserves-pure _

  beside-Preserves : (b : Block) → Preserves P (beside env rec b)
  unfolding beside
  beside-Preserves b = Preserves-get ▷ λ s.
      Preserves-if (s.pes_path && ltb 2 b.height) (terminate_smvba-Preserves framed _)
        (Preserves-pure _)
      ▷ λ _.
          Preserves-if (s.pes_path && ltb 1 b.height)
            (active_prepare_phase-Preserves c env rec back _ _ _) (Preserves-pure _)
          ▷ λ _.
              Preserves-if s.pes_path (invoke_fallback-Preserves c env rec back _ _)
                (Preserves-pure _)

  pub process_opt_block-Preserves : (b : Block) → Preserves P (process_opt_block env rec b)
  unfolding process_opt_block
  process_opt_block-Preserves b = Preserves-get ▷ λ s. leader_index-Preserves _ _ ▷ λ idx.
      Preserves-Option idx (Preserves-pure _) (λ i. quiet framed _ (λ s. refl)) ▷ λ _.
      get_ancestors-Preserves framed b ▷ λ o. Preserves-Option o (Preserves-pure _) (λ q.
        store_block-Preserves framed env b ▷ λ _. beside-Preserves b ▷ λ _. Preserves-lift _ ▷ λ _.
        commit_grandparent-Preserves q.0 ▷ λ _. Preserves-get ▷ λ t.
        Preserves-if (nat_eqb b.height t.height) (vote_for-Preserves c env rec back b)
          (Preserves-pure _))

  pub handle_opt_proposal-Preserves : (b : Block) → Preserves P (handle_opt_proposal env rec b)
  unfolding handle_opt_proposal
  handle_opt_proposal-Preserves b = Preserves-get ▷ λ s.
      Preserves-if (ltb b.epoch s.epoch) (Preserves-pure _) (
        Preserves-if (ltb s.epoch b.epoch) (quiet framed _ (λ s. refl) ▷ λ _. Preserves-lift _) (
          leader_index-Preserves _ _ ▷ λ idx. Preserves-lift _ ▷ λ _. Preserves-lift _ ▷ λ _.
          Preserves-if (s.pes_path && ltb 2 b.height) (terminate_smvba-Preserves framed _)
            (Preserves-pure _)
          ▷ λ _. process_qc-Preserves framed b.qc ▷ λ _.
              mempool_verify-Preserves framed env b opt ▷ λ present.
              Preserves-if present (process_opt_block-Preserves b) (Preserves-pure _)))

  pub opt_propose-Preserves : Preserves P (opt_propose env rec)
  unfolding opt_propose
  opt_propose-Preserves = Preserves-get ▷ λ s. leader_index-Preserves _ _ ▷ λ idx.
      Preserves-if (is_some idx) (Preserves-pure _) (Preserves-lift _) ▷ λ _.
      generate_proposal-Preserves framed env _ _ _ _ ▷ λ b.
      transmit-Preserves c _ _ _ _ _ refl ▷ λ _. process_opt_block-Preserves b

  on_event-Preserves : (e : Event) → Preserves P (on_event env rec e)
  unfolding on_event
  on_event-Preserves (core_message m) = core m
    where
      core : (m : ConsensusMessage) → Preserves P (on_core_message env rec m)
      core (hs_propose b) = handle_opt_proposal-Preserves b
      core (hs_vote v) = handle_opt_vote-Preserves c env rec back v
      core (hs_loop_back b) = process_opt_block-Preserves b
      core (sync_request d sender) = handle_sync_request-Preserves c d sender
      core (sync_reply b) = handle_opt_proposal-Preserves b
      core _ = Preserves-pure _
  on_event-Preserves (smvba_message m) = smvba m
    where
      smvba : (m : ConsensusMessage) → Preserves P (on_smvba_message env rec m)
      smvba (fb_propose b) = handle_fallback_propose-Preserves c env rec back b
      smvba (fb_vote v) = handle_fallback_vote-Preserves c env rec back v
      smvba (fb_loop_back b) = process_fallback_propose-Preserves c env rec back b
      smvba (spb_propose v p) = handle_spb_proposal-Preserves c env rec back v p
      smvba (spb_vote v) = handle_spb_vote-Preserves c env rec back v
      smvba (spb_finish v p) = handle_spb_finish-Preserves c env rec back v p
      smvba (spb_done_and_share d) = handle_smvba_done_with_share-Preserves c env rec back d
      smvba (smvba_pre_vote v) = handle_smvba_prevote-Preserves c env rec back v
      smvba (smvba_vote v) = handle_smvba_mvote-Preserves c env rec back v
      smvba (smvba_halt h) = handle_smvba_halt-Preserves c env rec back h
      smvba (par_prepare p) = handle_par_prepare-Preserves c env rec back p
      smvba (par_loop_back b) = process_par_out-Preserves c env rec back b
      smvba _ = Preserves-pure _
  on_event-Preserves timer_fired = opt_propose-Preserves

  boot-Preserves : Preserves P (boot env rec)
  unfolding boot
  boot-Preserves = Preserves-get ▷ λ s.
      Preserves-if s.opt_path
        (leader_index-Preserves _ _ ▷ λ idx. Preserves-Option idx (Preserves-pure _) (λ i.
          Preserves-if (nat_eqb i 0) (Preserves-ignore opt_propose-Preserves)
            (quiet framed _ (λ s. refl))))
        (Preserves-pure _)
      ▷ λ _. Preserves-get ▷ λ t.
          Preserves-if (not t.opt_path || t.pes_path && not (is_optimistic t))
            (Preserves-expect (invoke_fallback-Preserves c env rec back _ _)) (Preserves-pure _)

module _ {P : Core → Type 0} (c : Closed P) (env : Env) where
  -- The calls back up, by induction on their depth.
  call-Preserves : (fuel : ℕ) (k : Call) → Preserves P (call env fuel k)
  unfolding call
  call-Preserves zero k = Preserves-lift _
  call-Preserves (suc fuel) call_opt_propose = opt_propose-Preserves c env _ (call-Preserves fuel)
  call-Preserves (suc fuel) (call_fallback_propose b) =
      broadcast_fallback_propose-Preserves c env _ (call-Preserves fuel) b
  call-Preserves (suc fuel) (call_invoke_fallback h qc) =
      invoke_fallback-Preserves c env _ (call-Preserves fuel) h qc
  call-Preserves (suc fuel) (call_pes_propose v p) =
      broadcast_pes_propose-Preserves c env _ (call-Preserves fuel) v p
  call-Preserves (suc fuel) (call_done_and_share h r) =
      invoke_done_and_share-Preserves c env _ (call-Preserves fuel) h r

  settle : (b : Bool) (s t : Core) → P s → P t → P (if b then s else t)
  settle true s t hs ht = hs
  settle false s t hs ht = ht

  pub run_events-P :
      (fuel : ℕ) (events : List Event) (s : Core) → P s → P (run_events env fuel events s)
  unfolding run_events
  run_events-P fuel [] s h = h
  run_events-P fuel (e ∷ events) s h =
      let (r, t) = on_event env (call env fuel) e s in
      let ht = (on_event-Preserves c env _ (call-Preserves fuel) e).at s h in
      settle (goes_on env r) _ t (run_events-P fuel events t ht) ht

  -- What holds at the start of an epoch holds after any events of it.
  pub run-P : (fuel : ℕ) (events : List Event) (s : Core) → P s → P (run env fuel events s)
  unfolding run
  run-P fuel events s h =
      let (r, t) = boot env (call env fuel) s in
      let ht = (boot-Preserves c env _ (call-Preserves fuel)).at s h in
      settle (goes_on env r) _ t (run_events-P fuel events t ht) ht
