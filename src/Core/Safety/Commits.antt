-- ===== src/Core/Safety/Commits.antt =====
-- The blocks that a node delivers in an epoch: the commit channel and `last_committed_height` of
-- consensus/src/core.rs.
use gnosis.Core.Preserve.Run.{run-P}
use gnosis.Core.Loop.{Event, run}
use gnosis.Messages.{Block, hs_vote}
use gnosis.Core.Round.{increase_last_voted_round}
use gnosis.Core.Chain.{push, Net, filter, filter_smvba}
use gnosis.Prelude.{ℕ, List, ◌≡◌, ◌∷◌, ◌++◌, ◌<◌, [], refl, subst, sym, ap}
use gnosis.Core.State.{Core, Env, FilterInput}
use gnosis.Core.Preserve.{Closed, View, view}

-- `blocks`, the newest first, have falling heights, from `last` down to above `base`.
abbrev pub Falls : ℕ → List Block → ℕ → Type 0
Falls last [] base = last ≡ base
Falls last (b ∷ blocks) base = (last ≡ b.height) × ((h : ℕ) × (h < b.height) × Falls h blocks base)

-- What was delivered on top of `past`, since the last committed height was `base`.
abbrev pub Delivered : List Block → ℕ → View → Type 0
Delivered past base v =
    (new : List Block) × (v.commit_channel ≡ new ++ past) × Falls v.last_committed_height new base

push-Delivered :
    (past : List Block) (base : ℕ) (net : Net) (m : FilterInput) (s : Core)
    → Delivered past base (view s)
    → Delivered past base (view (push net m s))
unfolding push
push-Delivered past base filter m s h = h
push-Delivered past base filter_smvba m s h = h

abbrev Delivered-Closed :
    (past : List Block) (base : ℕ) → Closed (λ s. Delivered past base (view s))
unfolding increase_last_voted_round
Delivered-Closed past base = record {
  framed = record { frame = λ s t e h. subst (Delivered past base) (sym e) h };
  send = λ net m s _ h. push-Delivered past base net m s h;
  deliver = λ b s above h. (b ∷ h.0, ap (◌∷◌ b) h.1, (refl, (s.last_committed_height, above, h.2)));
  Voting = λ v s. Delivered past base (view s);
  raise = λ v s _ h. h;
  send_vote = λ v a s h. push-Delivered past base filter (hs_vote v, a) s h;
  voted = λ v s h. h;
}

-- Whatever a node handles in an epoch, the blocks that it delivers on its commit channel have
-- rising heights, all above the height that was committed when the epoch began; the last of them
-- has the last committed height.
pub run-commits_rise :
    (env : Env) (fuel : ℕ) (events : List Event) (s : Core)
    → Delivered s.commit_channel s.last_committed_height (view (run env fuel events s))
run-commits_rise env fuel events s =
    run-P (Delivered-Closed s.commit_channel s.last_committed_height) env fuel events s
      ([], refl, refl)
