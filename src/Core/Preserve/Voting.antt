-- ===== src/Core/Preserve/Voting.antt =====
-- The optimistic path and the event loop (Core/Opt, Core/Loop) preserve a closed predicate.
use gnosis.Messages.Build.{new_hvote}
use gnosis.Core.Preserve.Paths.{leader_index-Preserves, handle_opt_vote-Preserves}
use gnosis.Prelude.Words.{add64}
use gnosis.Core.Calls.{Back, Call}
use gnosis.Error.{Outcome, ok, err, panic, out_of_fuel}
use gnosis.Prelude.{
  ℕ, Option, List, ◌∷◌, not, nat_eqb, some, [], none, Bool, ltb, Bool-cases, ◌&&◌, inl, ◌≡◌, true,
  inr, ◌<◌, arith,
}
use gnosis.Core.Opt.{send_to_leaders, vote_for, make_opt_vote, leader_index, handle_opt_vote}
use gnosis.Core.Chain.{transmit, filter}
use gnosis.Messages.{HVote, hs_vote, opt, Block}
use gnosis.Leader
use gnosis.Core.State.{Core, M, modify, ◌>>=◌, continue, Env, get, lift, ◌>>◌, pure, done}
use gnosis.Core.Preserve.{
  Preserves, Closed, ◌▷◌, Preserves-pure, Preserves-get, Preserves-if, Preserves-lift,
  Preserves-modify, Preserves-Option,
}

module _ {P : Core → Type 0} (c : Closed P) where
  open c use {Voting}

  -- While a vote is sent.
  transmit_vote-Preserves :
      (v : HVote) (from : ℕ) (to : Option ℕ)
      → Preserves (Voting v) (transmit (hs_vote v) from to filter opt)
  unfolding transmit
  transmit_vote-Preserves v from to =
      Preserves-get ▷ λ s. Preserves-lift _ ▷ λ a. Preserves-modify _ (λ s h. c.send_vote v a s h)

  send_to_leaders-Preserves :
      (v : HVote) (name : ℕ) (leaders : List ℕ)
      → Preserves (Voting v) (send_to_leaders (hs_vote v) name leaders)
  unfolding send_to_leaders
  send_to_leaders-Preserves v name [] = Preserves-pure _
  send_to_leaders-Preserves v name (l ∷ leaders) =
      Preserves-if (not (nat_eqb name l)) (transmit_vote-Preserves v name (some l))
        (Preserves-pure _)
      ▷ λ _. send_to_leaders-Preserves v name leaders

  -- Sending the vote, and then what preserves the predicate itself.
  send_then-Preserves :
      {A : Type 0} {v : HVote} {m : M A} {B : Type 0} {f : A → M B}
      → Preserves (Voting v) m
      → ((a : A) → Preserves P (f a))
      → (s : Core) → Voting v s
      → P ((m >>= f) s).1
  unfolding ◌>>=◌
  send_then-Preserves {v} {m} {f} pm pf s h = let (r, t) = m s in settle r t (pm.at s h)
    where
      settle : (r : Outcome _) (t : Core) → Voting v t → P (continue r f t).1
      settle (ok a) t h = (pf a).at t (c.voted v t h)
      settle (err e) t h = c.voted v t h
      settle panic t h = c.voted v t h
      settle out_of_fuel t h = c.voted v t h

-- The first of the two rules of `make_opt_vote`.
and_left : (m n : ℕ) (b : Bool) → (ltb m n && b) ≡ true → m < n
and_left m n b h = ground arith

module _ {P : Core → Type 0} (c : Closed P) (env : Env) (rec : Back)
    (back : (k : Call) → Preserves P (rec k)) where
  open c use {framed, Voting}

  -- The rest of `vote_for` after the vote was made.
  after_vote : Block → HVote → M (Unit {0})
  after_vote block vote = do
    s ← get
    leaders ← lift (Leader.get_leaders s.leader_elector (add64 s.height 1))
    send_to_leaders (hs_vote vote) s.name leaders
    next ← leader_index s.name (add64 s.height 1)
    elim next [ none ↦ done | some i ↦ handle_opt_vote env rec vote ]

  after_vote-P : (b : Block) (v : HVote) (s : Core) → Voting v s → P (after_vote b v s).1
  unfolding after_vote ◌>>=◌ get lift
  after_vote-P b v s h = leaders (Leader.get_leaders s.leader_elector (add64 s.height 1))
    where
      rest : Core → Outcome (List ℕ) → M (Unit {0})
      rest s r = do
        leaders ← lift r
        send_to_leaders (hs_vote v) s.name leaders
        next ← leader_index s.name (add64 s.height 1)
        elim next [ none ↦ done | some i ↦ handle_opt_vote env rec v ]

      leaders : (r : Outcome (List ℕ)) → P (rest s r s).1
      leaders (ok ls) =
          send_then-Preserves c (send_to_leaders-Preserves c v s.name ls)
            (λ _. leader_index-Preserves _ _ ▷ λ o.
              Preserves-Option o (Preserves-pure _)
                (λ i. handle_opt_vote-Preserves c env rec back v))
            s h
      leaders (err e) = c.voted v s h
      leaders panic = c.voted v s h
      leaders out_of_fuel = c.voted v s h

  pub vote_for-Preserves : (b : Block) → Preserves P (vote_for env rec b)
  unfolding new_hvote vote_for make_opt_vote ◌>>=◌ get modify pure after_vote
  vote_for-Preserves b = record {
    at = λ s h.
        elim (Bool-cases
          (ltb s.last_voted_height b.height && nat_eqb (add64 b.qc.height 1) b.height)) [
            | inl may ↦ rw may (
                after_vote-P b (new_hvote env.crypto b s.name opt) _
                  (c.raise _ s (and_left _ _ _ may) h))
            | inr must_not ↦ rw must_not h
          ];
  }
