-- ===== src/Core/Loop.antt =====
-- The event loop of consensus/src/core.rs: `run`, and the messages that run_epoch hands back to it.
use gnosis.Core.Prepare.{handle_par_prepare}
use gnosis.Core.Output.{handle_smvba_halt, process_par_out}
use gnosis.Core.Vote.{handle_smvba_prevote, handle_smvba_mvote}
use gnosis.Core.Round.{is_optimistic}
use gnosis.Core.Coin.{invoke_done_and_share, handle_smvba_done_with_share}
use gnosis.Prelude.Words.{u64_mod}
use gnosis.Core.Chain.{handle_sync_request}
use gnosis.Core.Spb.{handle_spb_proposal, broadcast_pes_propose, handle_spb_vote, handle_spb_finish}
use gnosis.Core.Fallback.{
  handle_fallback_propose, handle_fallback_vote, broadcast_fallback_propose,
  process_fallback_propose, invoke_fallback,
}
use gnosis.Error.{Outcome, out_of_fuel, ok, err, epoch_end, panic}
use gnosis.Core.Opt.{
  opt_propose, handle_opt_proposal, leader_index, handle_opt_vote, process_opt_block,
}
use gnosis.Prelude.{
  ℕ, Bool, List, if◌then◌else◌, ◌∷◌, [], none, true, nat_eqb, some, false, ◌*◌, ◌%◌, not, zero,
  ◌||◌, ◌&&◌,
}
use gnosis.Messages.{
  ConsensusMessage, hs_propose, fb_propose, hs_vote, fb_vote, spb_propose, hs_loop_back,
  fb_loop_back, sync_request, spb_vote, sync_reply, spb_finish, spb_done_and_share, smvba_pre_vote,
  smvba_vote, smvba_halt, par_prepare, par_loop_back,
}
use Prim.Native.Nat.{ℕ, suc}
use gnosis.Core.State.{Core, M, Env, ◌>>=◌, ◌>>◌, get, lift, done, ignore, modify, expect}
use gnosis.Core.Calls.{
  Back, call_fallback_propose, call_invoke_fallback, call_pes_propose, call_done_and_share,
  call_opt_propose,
}

-- What the loop selects: a message of one of the two channels, or the timer.
pub data Event : Type 0 where
  core_message : ConsensusMessage → Event
  smvba_message : ConsensusMessage → Event
  timer_fired : Event

module _ (env : Env) where
  -- The calls back up, to a depth of `fuel`.
  unfoldable pub call : ℕ → Back
  call zero c = lift out_of_fuel
  call (suc fuel) call_opt_propose = opt_propose env (call fuel)
  call (suc fuel) (call_fallback_propose b) = broadcast_fallback_propose env (call fuel) b
  call (suc fuel) (call_invoke_fallback h qc) = invoke_fallback env (call fuel) h qc
  call (suc fuel) (call_pes_propose v p) = broadcast_pes_propose env (call fuel) v p
  call (suc fuel) (call_done_and_share h r) = invoke_done_and_share env (call fuel) h r

  unfoldable pub on_core_message : Back → ConsensusMessage → M (Unit {0})
  on_core_message rec (hs_propose block) = handle_opt_proposal env rec block
  on_core_message rec (hs_vote vote) = handle_opt_vote env rec vote
  on_core_message rec (hs_loop_back block) = process_opt_block env rec block
  on_core_message rec (sync_request digest sender) = handle_sync_request digest sender
  on_core_message rec (sync_reply block) = handle_opt_proposal env rec block
  on_core_message rec _ = done

  unfoldable pub on_smvba_message : Back → ConsensusMessage → M (Unit {0})
  on_smvba_message rec (fb_propose block) = handle_fallback_propose env rec block
  on_smvba_message rec (fb_vote vote) = handle_fallback_vote env rec vote
  on_smvba_message rec (fb_loop_back block) = process_fallback_propose env rec block
  on_smvba_message rec (spb_propose value proof) = handle_spb_proposal env rec value proof
  on_smvba_message rec (spb_vote vote) = handle_spb_vote env rec vote
  on_smvba_message rec (spb_finish value proof) = handle_spb_finish env rec value proof
  on_smvba_message rec (spb_done_and_share d) = handle_smvba_done_with_share env rec d
  on_smvba_message rec (smvba_pre_vote v) = handle_smvba_prevote env rec v
  on_smvba_message rec (smvba_vote v) = handle_smvba_mvote env rec v
  on_smvba_message rec (smvba_halt h) = handle_smvba_halt env rec h
  on_smvba_message rec (par_prepare p) = handle_par_prepare env rec p
  on_smvba_message rec (par_loop_back block) = process_par_out env rec block
  on_smvba_message rec _ = done

  unfoldable pub on_event : Back → Event → M (Unit {0})
  unfolding on_core_message on_smvba_message
  on_event rec (core_message m) = on_core_message rec m
  on_event rec (smvba_message m) = on_smvba_message rec m
  on_event rec timer_fired = opt_propose env rec

  -- Whether the loop goes on after an outcome: an error but the end of the epoch is only logged.
  unfoldable pub goes_on : Outcome (Unit {0}) → Bool
  goes_on (ok _) = true
  goes_on (err (epoch_end e)) = false
  goes_on (err _) = true
  goes_on panic = false
  goes_on out_of_fuel = false

  -- The loop over a sequence of events.
  unfoldable pub run_events : ℕ → List Event → Core → Core
  unfolding goes_on
  run_events fuel [] s = s
  run_events fuel (e ∷ events) s =
      let (r, s') = on_event (call fuel) e s in
      let rest = run_events fuel events s' in if goes_on r then rest else s'

  -- What `run` does before its loop.
  unfoldable pub boot : Back → M (Unit {0})
  boot rec = do
    s ← get
    if s.opt_path
        then (do
          idx ← leader_index s.name s.height
          elim idx [
            | none ↦ done
            | some i ↦
                if nat_eqb i 0
                then ignore (opt_propose env rec)
                else modify
                    (λ s. record s { timer = some ((i * s.parameters.timeout_delay) % u64_mod) })
          ])
        else done
    s' ← get
    if not s'.opt_path || s'.pes_path && not (is_optimistic s')
        then expect (invoke_fallback env rec s'.height (some s'.high_qc))
        else done

  -- `run` over the events of one epoch.
  unfoldable pub run : ℕ → List Event → Core → Core
  unfolding boot goes_on
  run fuel events s =
      let (r, s') = boot (call fuel) s in
      let rest = run_events fuel events s' in if goes_on r then rest else s'

  -- The messages kept for an epoch, taken up when it begins; the others are dropped, and one of
  -- another kind ends the loop.
  unfoldable pub replayed : ℕ → List (ℕ × ConsensusMessage) → List Event
  replayed epoch [] = []
  replayed epoch ((e, hs_propose b) ∷ kept) =
      let rest = replayed epoch kept in
      if nat_eqb e epoch then core_message (hs_propose b) ∷ rest else rest
  replayed epoch ((e, spb_propose v p) ∷ kept) =
      let rest = replayed epoch kept in
      if nat_eqb e epoch then smvba_message (spb_propose v p) ∷ rest else rest
  replayed epoch ((e, fb_propose b) ∷ kept) =
      let rest = replayed epoch kept in
      if nat_eqb e epoch then smvba_message (fb_propose b) ∷ rest else rest
  replayed epoch ((e, _) ∷ kept) =
      let rest = replayed epoch kept in if nat_eqb e epoch then [] else rest
