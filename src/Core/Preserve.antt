-- ===== src/Core/Preserve.antt =====
-- How an action of a node preserves a predicate on its state (consensus/src/core.rs). The rules
-- follow the ways to build an action; `Frame` and `Closed` say what a predicate must allow.
pub mod Basics
pub mod Agreement
pub mod Rounds
pub mod Paths
pub mod Voting
pub mod Run
use gnosis.Core.Round.{increase_last_voted_round}
use gnosis.Config.{Committee, Parameters}
use gnosis.Core.Chain.{Net, push, filter}
use gnosis.Messages.{ConsensusMessage, hs_vote, Block, HVote}
use gnosis.Error.{Outcome, ok, err, panic, out_of_fuel}
use gnosis.Prelude.{Bool, ℕ, ◌≡◌, if◌then◌else◌, true, false, List, ◌<◌, ◌∷◌, Option, none, some}
use Prim.Native.Nat.{ℕ}
use gnosis.Core.State.{
  Core, M, ◌>>=◌, ◌>>◌, pure, lift, expect, get, modify, ignore, continue, FilterInput,
}

-- `m` preserves `P`, whatever its outcome.
pub record Preserves (P : Core → Type 0) {A : Type 0} (m : M A) : Type 0 where
  pub at : (s : Core) → P s → P (m s).1

module _ {P : Core → Type 0} {A : Type 0} where
  pub Preserves-pure : (a : A) → Preserves P (pure a)
  unfolding pure
  Preserves-pure a = record { at = λ s h. h }

  pub Preserves-lift : (r : Outcome A) → Preserves P (lift r)
  unfolding lift
  Preserves-lift r = record { at = λ s h. h }

  pub Preserves-if :
      (b : Bool) {m n : M A} → Preserves P m → Preserves P n → Preserves P (if b then m else n)
  Preserves-if true pm pn = pm
  Preserves-if false pm pn = pn

  pub Preserves-expect : {m : M A} → Preserves P m → Preserves P (expect m)
  unfolding expect
  Preserves-expect pm = record { at = λ s h. pm.at s h }

module _ {P : Core → Type 0} where
  pub Preserves-get : Preserves P get
  unfolding get
  Preserves-get = record { at = λ s h. h }

  pub Preserves-modify : (f : Core → Core) → ((s : Core) → P s → P (f s)) → Preserves P (modify f)
  unfolding modify
  Preserves-modify f pf = record { at = pf }

  pub Preserves-ignore : {m : M (Unit {0})} → Preserves P m → Preserves P (ignore m)
  unfolding ignore
  Preserves-ignore pm = record { at = λ s h. pm.at s h }

  continue-Preserves :
      {A B : Type 0} (r : Outcome A) (f : A → M B) (s : Core)
      → ((a : A) → Preserves P (f a))
      → P s
      → P (continue r f s).1
  continue-Preserves (ok a) f s pf h = (pf a).at s h
  continue-Preserves (err e) f s pf h = h
  continue-Preserves panic f s pf h = h
  continue-Preserves out_of_fuel f s pf h = h

  infixr 6 ◌▷◌
  -- The rule of `>>=`.
  pub ◌▷◌ :
      {A B : Type 0} {m : M A} {f : A → M B}
      → Preserves P m
      → ((a : A) → Preserves P (f a))
      → Preserves P (m >>= f)
  unfolding ◌>>=◌
  ◌▷◌ {m} {f} pm pf = record {
    at = λ s h. let (r, s') = m s in continue-Preserves r f s' pf (pm.at s h);
  }

-- The part of the state that the safety of a node is about.
pub record View : Type 0 where
  pub name : ℕ
  pub committee : Committee
  pub parameters : Parameters
  pub opt_path : Bool
  pub pes_path : Bool
  pub fallback_length : ℕ
  pub epoch : ℕ
  pub network_filter : List FilterInput
  pub commit_channel : List Block
  pub last_voted_height : ℕ
  pub last_committed_height : ℕ

abbrev pub view : Core → View
view s = record {
  name = s.name;
  committee = s.committee;
  parameters = s.parameters;
  opt_path = s.opt_path;
  pes_path = s.pes_path;
  fallback_length = s.fallback_length;
  epoch = s.epoch;
  network_filter = s.network_filter;
  commit_channel = s.commit_channel;
  last_voted_height = s.last_voted_height;
  last_committed_height = s.last_committed_height;
}

-- A predicate that reads the view alone.
pub record Frame (P : Core → Type 0) : Type 0 where
  pub frame : (s t : Core) → view t ≡ view s → P s → P t

abbrev pub is_vote : ConsensusMessage → Bool
is_vote (hs_vote v) = true
is_vote _ = false

-- A predicate that allows what a node does to its view: it sends messages other than votes,
-- delivers blocks above the last committed height, and votes above the last height that it voted
-- at. `Voting v` holds while the vote `v` is being sent.
pub record Closed (P : Core → Type 0) : Type 1 where
  pub framed : Frame P
  pub send : (net : Net) (m : FilterInput) (s : Core) → is_vote m.0 ≡ false → P s → P (push net m s)
  pub deliver :
      (b : Block) (s : Core)
      → s.last_committed_height < b.height
      → P s
      → P (record s { last_committed_height = b.height; commit_channel = b ∷ s.commit_channel })
  pub Voting : HVote → Core → Type 0
  pub raise :
      (v : HVote) (s : Core)
      → s.last_voted_height < v.height
      → P s
      → Voting v (increase_last_voted_round v.height s)
  pub send_vote :
      (v : HVote) (a : List ℕ) (s : Core) → Voting v s → Voting v (push filter (hs_vote v, a) s)
  pub voted : (v : HVote) (s : Core) → Voting v s → P s

module _ {P : Core → Type 0} {A B : Type 0} where
  pub Preserves-Option :
      (o : Option A) {m : M B} {f : A → M B}
      → Preserves P m
      → ((a : A) → Preserves P (f a))
      → Preserves P (elim o [ none ↦ m | some a ↦ f a ])
  Preserves-Option none pm pf = pm
  Preserves-Option (some a) pm pf = pf a
