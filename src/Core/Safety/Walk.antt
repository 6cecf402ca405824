-- ===== src/Core/Safety/Walk.antt =====
-- What `commit` of consensus/src/core.rs walks through, against the stored chain.
use gnosis.Error.{Outcome, ok}
use gnosis.Crypto.{Digest}
use gnosis.Core.Chain.{commit, commit_loop, get_parent_block}
use gnosis.Core.State.{Env, pure, ConsensusMempoolMessage, Core, cleanup, ◌>>=◌, done, >>=-ok}
use gnosis.Messages.{Block, qc_eq, genesis_qc, genesis, parent}
use gnosis.Prelude.{
  List, ℕ, ◌≤◌, ◌∷◌, ◌≡◌, ◌+◌, ◌<◌, if◌then◌else◌, [], arith, suc, true, is_empty, false,
  Bool-cases, ◌⊎◌, ltb, inl, refl, none, some, ltb→lt, inr, nat_eq, zero, ◌∙◌, ap,
}
use gnosis.Prelude.Map.{Map, lookup}
use gnosis.Core.Safety.Chain.{
  Ranked, get_parent_block-cases, cleaned, cleaned-store, commit_loop-suc,
}

-- `blocks` are a block and its stored ancestors, down to the last committed height, to a block on
-- the genesis block, or to one whose parent is not stored.
abbrev pub Commits : Map Digest Block → ℕ → Block → List Block → Type 0
Commits store last b [] = b.height ≤ last
Commits store last b (x ∷ xs) =
    (x ≡ b)
    × (last < b.height)
    × (((qc_eq b.qc genesis_qc ≡ true) × (xs ≡ []))
        ⊎ ((qc_eq b.qc genesis_qc ≡ false) × (lookup (parent b) store ≡ none) × (xs ≡ []))
        ⊎ ((p : Block) × (qc_eq b.qc genesis_qc ≡ false)
            × (lookup (parent b) store ≡ some p)
            × Commits store last p xs))

-- The messages to the mempool about the blocks, in their order: one for each block with a payload.
abbrev pub cleanups : List Block → List ConsensusMempoolMessage → List ConsensusMempoolMessage
cleanups [] sent = sent
cleanups (b ∷ blocks) sent =
    cleanups blocks (if is_empty b.payload then sent else cleanup b.payload b.height ∷ sent)

-- The outcome of a walk from a block.
abbrev pub Walked : Block → Core → Outcome (Unit {0}) × Core → Type 0
Walked b s r =
    (blocks : List Block) × Commits s.store s.last_committed_height b blocks
    × (r.0 ≡ ok tt)
    × (r.1.mempool ≡ cleanups blocks s.mempool)
    × (r.1.store ≡ s.store)
    × (r.1.last_committed_height ≡ s.last_committed_height)

cleaned-mempool : (b : Block) (s : Core) → (cleaned b s).mempool ≡ cleanups (b ∷ []) s.mempool
unfolding cleaned
cleaned-mempool b s = ground arith

cleaned-last :
    (b : Block) (s : Core) → (cleaned b s).last_committed_height ≡ s.last_committed_height
unfolding cleaned
cleaned-last b s = ground arith

genesis-stops :
    (env : Env) (fuel : ℕ) (s : Core) → commit_loop env (suc fuel) genesis s ≡ (ok tt, s)
genesis-stops env fuel s =
    let low : ltb s.last_committed_height 0 ≡ false = ground arith in
    rw (commit_loop-suc env fuel genesis s) (rw low refl)

parent-Walked :
    (env : Env) (fuel : ℕ) (b : Block) (s : Core)
    → ((p : Block)
        → qc_eq b.qc genesis_qc ≡ false
        → lookup (parent b) (cleaned b s).store ≡ some p
        → Walked p (cleaned b s) (commit_loop env (suc fuel) p (cleaned b s)))
    → s.last_committed_height < b.height
    → Walked b s (
        (get_parent_block b >>= elim [ none ↦ done | some p ↦ commit_loop env (suc fuel) p ])
          (cleaned b s))
unfolding pure
parent-Walked env fuel b s ih above = elim (get_parent_block-cases b (cleaned b s)) [
  | inl (root, e) ↦
      rw (>>=-ok _ _ e, genesis-stops env fuel (cleaned b s))
        (
          b ∷ [],
          (refl, above, inl (root, refl)),
          refl,
          cleaned-mempool b s,
          cleaned-store b s,
          cleaned-last b s,
        )
  | inr (inl (p, inner, stored, e)) ↦
      let (blocks, walk, good, sent, kept, last) = ih p inner stored in
      rw (>>=-ok _ _ e) (
        b ∷ blocks,
        (
          refl,
          above,
          inr (
              inr (
                p,
                inner,
                rw (cleaned-store b s) at stored,
                rw (cleaned-store b s, cleaned-last b s) at walk,
              )),
        ),
        good,
        sent ∙ ap (cleanups blocks) (cleaned-mempool b s),
        kept ∙ cleaned-store b s,
        last ∙ cleaned-last b s,
      )
  | inr (inr (inner, missing, e)) ↦ rw (>>=-ok _ _ e) (
    b ∷ [],
    (refl, above, inr (inl (inner, rw (cleaned-store b s) at missing, refl))),
    refl,
    cleaned-mempool b s,
    cleaned-store b s,
    cleaned-last b s,
  )
]

module _ (env : Env) (rank : Block → ℕ) where
  commit_loop-Walked :
      (fuel : ℕ) (b : Block) (s : Core)
      → rank b + 1 < fuel
      → Ranked rank s.store
      → Walked b s (commit_loop env fuel b s)
  commit_loop-Walked zero b s lt ranked = absurd (omega arith)
  commit_loop-Walked (suc zero) b s lt ranked = absurd (omega arith)
  commit_loop-Walked (suc (suc fuel)) b s lt ranked =
      let ranked' : Ranked rank (cleaned b s).store = rw cleaned-store ranked in
      rw (commit_loop-suc env (suc fuel) b s)
        (elim (Bool-cases (ltb s.last_committed_height b.height)) [
          | inl above ↦ rw above (
              parent-Walked env fuel b s
                (λ p inner stored.
                  commit_loop-Walked (suc fuel) p (cleaned b s)
                    (omega (arith, ranked' b p inner stored)) ranked')
                (ltb→lt _ _ above))
          | inr below ↦ rw below ([], ground arith, refl, refl, refl, refl)
        ])

-- A commit returns with no error and has told the mempool, in order, of the payload of each block of
-- the stored chain that it starts: the block and its ancestors down to the last committed height, to
-- a block on the genesis block, or to one whose parent is not stored. Store and last committed
-- height stay. The conditions: some rank falls from each block to its stored parent, and the bound
-- on chains exceeds the rank of the block by two.
pub commit-Walked :
    (env : Env) (rank : Block → ℕ) (b : Block) (s : Core)
    → Ranked rank s.store
    → rank b + 1 < env.chain_bound
    → Walked b s (commit env b s)
unfolding commit
commit-Walked env rank b s ranked lt = commit_loop-Walked env rank env.chain_bound b s lt ranked
