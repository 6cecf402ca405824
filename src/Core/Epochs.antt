-- ===== src/Core/Epochs.antt =====
-- The loop over epochs, run_epoch of consensus/src/core.rs. What a node handles in an epoch may
-- depend on the messages that were kept for it, which come on the channels among others.
pub mod Fresh
use gnosis.Prelude.{ℕ, Bool, List, true, false, if◌then◌else◌, ◌∷◌, [], nat_eqb}
use gnosis.Core.Loop.{Event, call, on_event, goes_on, boot, run, replayed}
use gnosis.Core.Round.{epoch_init}
use gnosis.Core.State.{Core, Env}
use gnosis.Error.{Outcome, ok, err, epoch_end}
use gnosis.Messages.{ConsensusMessage, hs_propose, spb_propose, fb_propose}
use gnosis.Prelude.Words.{add64}

-- The messages that stay in the queue: a message of another kind for the epoch breaks the loop.
unfoldable pub left_over : ℕ → List (ℕ × ConsensusMessage) → List (ℕ × ConsensusMessage)
left_over epoch [] = []
left_over epoch ((e, hs_propose b) ∷ kept) = left_over epoch kept
left_over epoch ((e, spb_propose v p) ∷ kept) = left_over epoch kept
left_over epoch ((e, fb_propose b) ∷ kept) = left_over epoch kept
left_over epoch ((e, _) ∷ kept) =
    let rest = left_over epoch kept in if nat_eqb e epoch then kept else rest

-- Whether an outcome ends the epoch, rather than the node.
unfoldable pub is_end : Outcome (Unit {0}) → Bool
is_end (err (epoch_end e)) = true
is_end _ = false

module _ (env : Env) where
  -- Whether `run` returns because the epoch ended.
  unfoldable pub events_end : ℕ → List Event → Core → Bool
  unfolding is_end
  events_end fuel [] s = false
  events_end fuel (e ∷ events) s =
      let (r, s') = on_event env (call env fuel) e s in
      let rest = events_end fuel events s' in if goes_on env r then rest else is_end r

  unfoldable pub run_ends : ℕ → List Event → Core → Bool
  unfolding events_end is_end
  run_ends fuel events s =
      let (r, s') = boot env (call env fuel) s in
      let rest = events_end fuel events s' in if goes_on env r then rest else is_end r

  -- run_epoch, from a given epoch on: what is handled in each epoch, as a function of what was kept
  -- for it.
  unfoldable pub run_epochs :
      ℕ → (epoch : ℕ) → List (List Event → List Event) → (kept : List Event) → Core → Core
  unfolding run_ends left_over
  run_epochs fuel epoch [] kept s = s
  run_epochs fuel epoch (handles ∷ later) kept s =
      let after : Core = run env fuel (handles kept) s in
      let next : Core = epoch_init (add64 epoch 1) after in
      let rest =
        run_epochs fuel (add64 epoch 1) later (replayed env (add64 epoch 1) next.unhandle_message)
          (record next { unhandle_message = left_over (add64 epoch 1) next.unhandle_message }) in
      if run_ends fuel (handles kept) s then rest else after
