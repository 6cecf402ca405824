-- ===== src/Core/Epochs/Fresh.antt =====
-- How an epoch begins after another: epoch_init against Core::new in consensus/src/core.rs.
use gnosis.Prelude.{ℕ, Bool, List, ◌≡◌, ◌∙◌, refl, ap}
use gnosis.Config.{Committee, Parameters}
use gnosis.Messages.{hs_vote}
use gnosis.Core.Chain.{push, Net, filter, filter_smvba}
use gnosis.Core.Loop.{Event, run}
use gnosis.Core.Round.{
  epoch_init, new_core, update_smvba_state, update_prepare_state, increase_last_voted_round,
}
use gnosis.Core.State.{Core, Env, FilterInput}
use gnosis.Core.Preserve.{Closed, View, view}
use gnosis.Core.Preserve.Run.{run-P}

-- What a node is made with, and nothing of what it does.
record Made : Type 0 where
  pub name : ℕ
  pub committee : Committee
  pub parameters : Parameters
  pub opt_path : Bool
  pub pes_path : Bool
  pub fallback_length : ℕ

abbrev made : View → Made
made v = record {
  name = v.name;
  committee = v.committee;
  parameters = v.parameters;
  opt_path = v.opt_path;
  pes_path = v.pes_path;
  fallback_length = v.fallback_length;
}

push-made : (net : Net) (m : FilterInput) (s : Core) → made (view (push net m s)) ≡ made (view s)
unfolding push
push-made filter m s = refl
push-made filter_smvba m s = refl

abbrev Made-Closed : (a : Made) → Closed (λ s. made (view s) ≡ a)
unfolding increase_last_voted_round
Made-Closed a = record {
  framed = record { frame = λ s t e h. ap made e ∙ h };
  send = λ net m s _ h. push-made net m s ∙ h;
  deliver = λ b s above h. h;
  Voting = λ v s. made (view s) ≡ a;
  raise = λ v s _ h. h;
  send_vote = λ v a s h. push-made filter (hs_vote v, a) s ∙ h;
  voted = λ v s h. h;
}

-- No handler changes what a node is made with.
run-made :
    (env : Env) (fuel : ℕ) (events : List Event) (s : Core)
    → made (view (run env fuel events s)) ≡ made (view s)
run-made env fuel events s = run-P (Made-Closed (made (view s))) env fuel events s refl

-- A node that takes over the number of the epoch and what an earlier one sent, asked for, delivered
-- and kept.
abbrev pub taken_over : (epoch : ℕ) → Core → Core → Core
taken_over epoch old fresh = record fresh {
  epoch = epoch;
  mempool = old.mempool;
  synchronizer = old.synchronizer;
  network_filter = old.network_filter;
  network_filter_smvba = old.network_filter_smvba;
  commit_channel = old.commit_channel;
  unhandle_message = old.unhandle_message;
}

-- What a node is made of at the start of an epoch.
abbrev fresh_of : Made → Core → Core
fresh_of a old = record (new_core a.name a.committee a.parameters old.store a.opt_path a.pes_path) {
  fallback_length = a.fallback_length;
}

epoch_init-made :
    (epoch : ℕ) (s : Core) → epoch_init epoch s ≡ taken_over epoch s (fresh_of (made (view s)) s)
unfolding epoch_init new_core update_smvba_state update_prepare_state
epoch_init-made epoch s = refl

-- Whatever a node handles in an epoch, the next epoch begins in the state of a new node that is made
-- with the name, the committee, the parameters and the paths which the node had when the epoch began,
-- and with its store, but for the number of the epoch, for what was sent, asked for and delivered, and
-- for the messages that are kept: no height, flag, vote, lock, collected message or timer of the old
-- epoch is left. The length of the fallback chain must be that of the parameters when the epoch began.
pub epoch_init-run :
    (env : Env) (fuel epoch : ℕ) (events : List Event) (s : Core)
    → s.fallback_length ≡ s.parameters.fallback_length
    → epoch_init epoch (run env fuel events s)
      ≡ taken_over epoch (run env fuel events s) (
          new_core s.name s.committee s.parameters
            (run env fuel events s).store
            s.opt_path
            s.pes_path)
unfolding new_core update_smvba_state update_prepare_state
epoch_init-run env fuel epoch events s same =
    let end : Core = run env fuel events s in
    epoch_init-made epoch end
    ∙ ap (λ a. taken_over epoch end (fresh_of a end)) (run-made env fuel events s)
    ∙ ap (λ n. taken_over epoch end (fresh_of (record (made (view s)) { fallback_length = n }) end))
        same
