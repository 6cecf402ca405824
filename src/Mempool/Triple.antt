-- ===== src/Mempool/Triple.antt =====
-- How an action of the mempool's core keeps a predicate on its state, and what holds of its result
-- (mempool/src/core.rs). The rules follow the ways to build an action.
use gnosis.Mempool.Error.{MempoolResult, ok, err}
use gnosis.Mempool.State.{Core, M, ◌>>=◌, get, modify, pure, lift, continue}
use gnosis.Prelude.{Bool, ◌≡◌, if◌then◌else◌, refl, true, false}

-- What holds of a result, if there is one.
unfoldable pub Yields : {A : Type 0} → (A → Core → Type 0) → MempoolResult A → Core → Type 0
Yields Q (ok a) s = Q a s
Yields Q (err why) s = Unit

-- From a state with I and P the action keeps I, and Q holds of its result.
pub record Triple (I P : Core → Type 0) {A : Type 0} (m : M A) (Q : A → Core → Type 0)
    : Type 0 where
  pub at : (s : Core) → I s → P s → I (m s).1 × Yields Q (m s).0 (m s).1

module _ {I P : Core → Type 0} where
  infixr 6 ◌▷◌
  pub ◌▷◌ :
      {A B : Type 0} {Q : A → Core → Type 0} {R : B → Core → Type 0} {m : M A} {next : A → M B}
      → Triple I P m Q
      → ((a : A) → Triple I (Q a) (next a) R)
      → Triple I P (m >>= next) R
  unfolding ◌>>=◌ Yields
  ◌▷◌ {A = A} {Q = Q} {R = R} {m} {next} first after = record {
    at = λ s i p. go (m s) (first.at s i p);
  }
    where
      go :
          (out : MempoolResult A × Core)
          → I out.1 × Yields Q out.0 out.1
          → I (continue out.0 next out.1).1
            × Yields R (continue out.0 next out.1).0 (continue out.0 next out.1).1
      go (ok a, s') h = (after a).at s' h.0 h.1
      go (err why, s') h = (h.0, tt)

  pub Triple-get : Triple I P get (λ a s. (a ≡ s) × P s)
  unfolding Yields get
  Triple-get = record { at = λ s i p. (i, (refl, p)) }

  pub Triple-modify :
      (f : Core → Core) (Q : Core → Type 0)
      → ((s : Core) → I s → P s → I (f s) × Q (f s))
      → Triple I P (modify f) (λ _ s. Q s)
  unfolding Yields modify
  Triple-modify f Q keep = record { at = keep }

  pub Triple-pure :
      {A : Type 0} (Q : A → Core → Type 0) (a : A)
      → ((s : Core) → I s → P s → Q a s)
      → Triple I P (pure a) Q
  unfolding Yields pure
  Triple-pure Q a now = record { at = λ s i p. (i, now s i p) }

  pub Triple-lift :
      {A : Type 0} (r : MempoolResult A) → Triple I P (lift r) (λ a s. (r ≡ ok a) × P s)
  unfolding Yields lift
  Triple-lift (ok a) = record { at = λ s i p. (i, (refl, p)) }
  Triple-lift (err why) = record { at = λ s i p. (i, tt) }

  pub Triple-if :
      {A : Type 0} {Q : A → Core → Type 0} (b : Bool) {m n : M A}
      → Triple I P m Q
      → Triple I P n Q
      → Triple I P (if b then m else n) Q
  Triple-if true tm tn = tm
  Triple-if false tm tn = tn

  -- The rule of consequence.
  pub Triple-weaken :
      {A : Type 0} (P' : Core → Type 0) {m : M A} (Q' Q : A → Core → Type 0)
      → ((s : Core) → P s → P' s)
      → ((a : A) (s : Core) → Q' a s → Q a s)
      → Triple I P' m Q'
      → Triple I P m Q
  unfolding Yields
  Triple-weaken {A = A} P' {m} Q' Q before after t = record {
    at = λ s i p. let (i', q) = t.at s i (before s p) in (i', result (m s).0 (m s).1 q);
  }
    where
      result : (r : MempoolResult A) (s : Core) → Yields Q' r s → Yields Q r s
      result (ok a) s q = after a s q
      result (err why) s q = tt
