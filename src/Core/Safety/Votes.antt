-- ===== src/Core/Safety/Votes.antt =====
-- The votes that a node sends in an epoch: make_opt_vote and `last_voted_height` of
-- consensus/src/core.rs.
use gnosis.Core.Preserve.Run.{run-P}
use gnosis.Core.Loop.{Event, run}
use gnosis.Core.Round.{increase_last_voted_round}
use gnosis.Core.Chain.{push, Net, filter, filter_smvba}
use gnosis.Messages.{HVote, hs_vote}
use gnosis.Prelude.{
  zero, suc, ℕ, List, ◌∷◌, ◌≡◌, ◌≤◌, ◌<◌, get_elem?, [], ◌++◌, arith, false, ap, some, refl, subst,
  sym,
}
use gnosis.Core.State.{Core, Env, FilterInput}
use gnosis.Core.Preserve.{Closed, View, view, is_vote}

-- The votes among the messages sent.
unfoldable pub votes_in : List FilterInput → List HVote
votes_in [] = []
votes_in ((hs_vote v, a) ∷ sent) = v ∷ votes_in sent
votes_in ((_, a) ∷ sent) = votes_in sent

abbrev pub Agree : HVote → List HVote → Type 0
Agree v [] = Unit {0}
Agree v (w ∷ votes) = (v.height ≡ w.height → v ≡ w) × Agree v votes

abbrev pub Below : ℕ → List HVote → Type 0
Below n [] = Unit {0}
Below n (w ∷ votes) = (w.height ≤ n) × Below n votes

-- Votes for one height are one vote.
abbrev pub Consistent : List HVote → Type 0
Consistent [] = Unit {0}
Consistent (v ∷ votes) = Agree v votes × Consistent votes

-- What was sent on top of `past`.
abbrev Voted : List FilterInput → View → Type 0
Voted past v =
    (sent : List FilterInput) × (v.network_filter ≡ sent ++ past)
    × Below v.last_voted_height (votes_in sent)
    × Consistent (votes_in sent)

abbrev VotingFor : List FilterInput → HVote → View → Type 0
VotingFor past vote v =
    (sent : List FilterInput) × (v.network_filter ≡ sent ++ past)
    × Below v.last_voted_height (votes_in sent)
    × Consistent (votes_in sent)
    × Agree vote (votes_in sent)
    × (vote.height ≤ v.last_voted_height)

Below-mono : {m n : ℕ} (votes : List HVote) → m ≤ n → Below m votes → Below n votes
Below-mono [] le h = tt
Below-mono (w ∷ votes) le h = (omega arith, Below-mono votes le h.1)

Below-Agree :
    {n : ℕ} (v : HVote) (votes : List HVote) → n < v.height → Below n votes → Agree v votes
Below-Agree v [] lt h = tt
Below-Agree v (w ∷ votes) lt h = (λ e. absurd (omega arith), Below-Agree v votes lt h.1)

votes_in-other :
    (m : FilterInput) (sent : List FilterInput)
    → is_vote m.0 ≡ false
    → votes_in (m ∷ sent) ≡ votes_in sent
unfolding votes_in
votes_in-other (hs_vote v, a) sent h = cc
votes_in-other (_, a) sent h = refl

send-Voted :
    (past : List FilterInput) (net : Net) (m : FilterInput) (s : Core)
    → is_vote m.0 ≡ false
    → Voted past (view s)
    → Voted past (view (push net m s))
unfolding push
send-Voted past filter m s other (sent, e, below, same) = (
  m ∷ sent,
  ap (◌∷◌ m) e,
  rw (votes_in-other m sent other) below,
  rw (votes_in-other m sent other) same,
)
send-Voted past filter_smvba m s other h = h

raise-VotingFor :
    (past : List FilterInput) (v : HVote) (s : Core)
    → s.last_voted_height < v.height
    → Voted past (view s)
    → VotingFor past v (view (increase_last_voted_round v.height s))
unfolding increase_last_voted_round
raise-VotingFor past v s above (sent, e, below, same) = (
  sent,
  e,
  Below-mono (votes_in sent) (omega arith) below,
  same,
  Below-Agree v (votes_in sent) above below,
  omega arith,
)

send_vote-VotingFor :
    (past : List FilterInput) (v : HVote) (a : List ℕ) (s : Core)
    → VotingFor past v (view s)
    → VotingFor past v (view (push filter (hs_vote v, a) s))
unfolding push votes_in
send_vote-VotingFor past v a s (sent, e, below, same, agree, le) = (
  (hs_vote v, a) ∷ sent,
  ap (◌∷◌ (hs_vote v, a)) e,
  (le, below),
  (agree, same),
  ((λ _. refl), agree),
  le,
)

abbrev Voted-Closed : (past : List FilterInput) → Closed (λ s. Voted past (view s))
Voted-Closed past = record {
  framed = record { frame = λ s t e h. subst (Voted past) (sym e) h };
  send = λ net m s other h. send-Voted past net m s other h;
  deliver = λ b s above h. h;
  Voting = λ v s. VotingFor past v (view s);
  raise = λ v s above h. raise-VotingFor past v s above h;
  send_vote = λ v a s h. send_vote-VotingFor past v a s h;
  voted = λ v s h. (h.0, h.1, h.2, h.3);
}

Agree-at :
    (v w : HVote) (votes : List HVote) (i : ℕ)
    → Agree v votes
    → get_elem? votes i ≡ some w
    → v.height ≡ w.height
    → v ≡ w
Agree-at v w [] i h e same = cc
Agree-at v w (x ∷ votes) zero h e same = ground (arith, h.0)
Agree-at v w (x ∷ votes) (suc i) h e same = Agree-at v w votes i h.1 e same

Consistent-at :
    (votes : List HVote) (i j : ℕ) (v w : HVote)
    → Consistent votes
    → get_elem? votes i ≡ some v
    → get_elem? votes j ≡ some w
    → v.height ≡ w.height
    → v ≡ w
Consistent-at [] i j v w h p q same = cc
Consistent-at (x ∷ votes) zero zero v w h p q same = cc
Consistent-at (x ∷ votes) zero (suc j) v w h p q same = ground (arith, Agree-at x w votes j h.0 q)
Consistent-at (x ∷ votes) (suc i) zero v w h p q same = ground (arith, Agree-at x v votes i h.0 p)
Consistent-at (x ∷ votes) (suc i) (suc j) v w h p q same = Consistent-at votes i j v w h.1 p q same

-- Whatever a node handles in an epoch, what it sends on the channel of the optimistic path holds no
-- two different votes for one height, and no vote above the last height that it voted at.
pub run-no_equivocation :
    (env : Env) (fuel : ℕ) (events : List Event) (s : Core)
    → (sent : List FilterInput) × ((run env fuel events s).network_filter
        ≡ sent ++ s.network_filter)
      × Below (run env fuel events s).last_voted_height (votes_in sent)
      × ((i j : ℕ) (v w : HVote)
          → get_elem? (votes_in sent) i ≡ some v
          → get_elem? (votes_in sent) j ≡ some w
          → v.height ≡ w.height
          → v ≡ w)
unfolding votes_in
run-no_equivocation env fuel events s =
    let (sent, e, below, same) =
      run-P (Voted-Closed s.network_filter) env fuel events s ([], refl, tt, tt) in
    (sent, e, below, λ i j v w p q eq. Consistent-at (votes_in sent) i j v w same p q eq)
