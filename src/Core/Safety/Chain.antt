-- ===== src/Core/Safety/Chain.antt =====
-- The steps of the walk of `commit` in consensus/src/core.rs along the stored chain.
use gnosis.Error.{ok}
use gnosis.Crypto.{Digest}
use gnosis.Prelude.Map.{Map, lookup}
use gnosis.Prelude.{
  ℕ, ◌≡◌, if◌then◌else◌, arith, not, is_empty, suc, ltb, none, false, true, ◌∷◌, some, ◌<◌,
  Bool-cases, ◌⊎◌, inl, nat_eq, inr, Option-cases, refl,
}
use gnosis.Core.Chain.{get_parent_block, commit_loop, cleanup_par}
use gnosis.Messages.{Block, qc_eq, genesis_qc, parent, genesis}
use gnosis.Core.State.{Core, Env, ◌>>=◌, get, pure, modify, cleanup, done}

-- A rank that falls from each block to its stored parent. The hash links give one: a cycle of
-- parents would be a cycle of digests.
abbrev pub Ranked : (Block → ℕ) → Map Digest Block → Type 0
Ranked rank store =
    (b p : Block)
    → qc_eq b.qc genesis_qc ≡ false
    → lookup (parent b) store ≡ some p
    → rank p < rank b

-- What `get_parent_block` returns: the genesis block, the stored parent, or nothing.
pub get_parent_block-cases :
    (b : Block) (s : Core)
    → ((qc_eq b.qc genesis_qc ≡ true) × (get_parent_block b s ≡ (ok (some genesis), s)))
      ⊎ ((p : Block) × (qc_eq b.qc genesis_qc ≡ false)
          × (lookup (parent b) s.store ≡ some p)
          × (get_parent_block b s ≡ (ok (some p), s)))
      ⊎ ((qc_eq b.qc genesis_qc ≡ false)
          × (lookup (parent b) s.store ≡ none)
          × (get_parent_block b s ≡ (ok none, record s { synchronizer = b ∷ s.synchronizer })))
unfolding get_parent_block ◌>>=◌ get pure modify
get_parent_block-cases b s = elim (Bool-cases (qc_eq b.qc genesis_qc)) [
  | inl root ↦ inl (root, rw root refl)
  | inr inner ↦ elim (Option-cases (lookup (parent b) s.store)) [
    | inl e ↦ inr (inr (inner, e, rw (inner, e) refl))
    | inr (p, e) ↦ inr (inl (p, inner, e, rw (inner, e) refl))
  ]
]

-- The message to the mempool about a block of the chain, if it has a payload.
unfoldable pub cleaned : Block → Core → Core
cleaned b s =
    if not (is_empty b.payload)
    then record s { mempool = cleanup b.payload b.height ∷ s.mempool }
    else s

pub cleaned-store : (b : Block) (s : Core) → (cleaned b s).store ≡ s.store
unfolding cleaned
cleaned-store b s = ground arith

-- One round of the loop.
pub commit_loop-suc :
    (env : Env) (fuel : ℕ) (b : Block) (s : Core)
    → commit_loop env (suc fuel) b s ≡ (
        if ltb s.last_committed_height b.height
        then (get_parent_block b >>= elim [ none ↦ done | some p ↦ commit_loop env fuel p ])
            (cleaned b s)
        else (ok tt, s))
unfolding commit_loop ◌>>=◌ get cleanup_par modify pure cleaned
commit_loop-suc env fuel b s = elim (Bool-cases (ltb s.last_committed_height b.height)) [
  | inl above ↦ elim (Bool-cases (is_empty b.payload)) [
    | inl empty ↦ rw (above, empty) refl
    | inr full ↦ rw (above, full) refl
  ]
  | inr below ↦ rw below refl
]
