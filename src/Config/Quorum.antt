-- ===== src/Config/Quorum.antt =====
-- Thresholds and quorums (consensus/src/config.rs, `quorum_threshold`, `random_coin_threshold`).
use gnosis.Prelude.{
  ℕ, ◌≡◌, ◌≤◌, ◌<◌, ◌+◌, ◌-◌, ◌*◌, List, [], ◌∷◌, if◌then◌else◌, Bool-cases, inl, inr, false,
  nat_eq, arith,
}
use gnosis.Prelude.Words.{u32_mod}
use gnosis.Prelude.Map.{mem}
use gnosis.Config.Stake.{total_votes-eq-exact_sum, Fits, stake_of, Distinct, stake_of-le-total}
use gnosis.Config.{Committee, total_votes, quorum_threshold, random_coin_threshold}

-- With N = 3 f + 1 + k votes, k < 3, the thresholds are 2 f + 1 for a quorum and f + 1 for the coin,
-- whatever k is, if N fits a u32; a quorum is k votes short of the N - f that the source's comment
-- computes.
thresholds :
    (c : Committee) (f k : ℕ)
    → k < 3
    → total_votes c < u32_mod
    → total_votes c ≡ 3 * f + 1 + k
    → (quorum_threshold c ≡ 2 * f + 1)
      × (random_coin_threshold c ≡ f + 1)
      × (quorum_threshold c + k ≡ total_votes c - f)
unfolding quorum_threshold random_coin_threshold
thresholds c f k small fits total = (omega arith, omega arith, omega arith)

-- The authorities of `ys` that are in `xs`, and `xs` with those of `ys` that are not.
unfoldable pub common : List ℕ → List ℕ → List ℕ
common xs [] = []
common xs (y ∷ ys) = let rest = common xs ys in if mem y xs then y ∷ rest else rest

merge : List ℕ → List ℕ → List ℕ
merge xs [] = xs
merge xs (y ∷ ys) = let rest = merge xs ys in if mem y xs then rest else y ∷ rest

mem-merge :
    (xs ys : List ℕ) (z : ℕ) → mem z xs ≡ false → mem z ys ≡ false → mem z (merge xs ys) ≡ false
unfolding merge mem
mem-merge xs [] z hx hy = hx
mem-merge xs (y ∷ ys) z hx hy = ground (arith, mem-merge xs ys z)

merge-Distinct : (xs ys : List ℕ) → Distinct xs → Distinct ys → Distinct (merge xs ys)
unfolding merge
merge-Distinct xs [] dx dy = dx
merge-Distinct xs (y ∷ ys) dx dy = elim (Bool-cases (mem y xs)) [
  | inl old ↦ rw old (merge-Distinct xs ys dx dy.1)
  | inr new ↦ rw new (mem-merge xs ys y new dy.0, merge-Distinct xs ys dx dy.1)
]

stake_of-merge-common :
    (c : Committee) (xs ys : List ℕ)
    → stake_of c (merge xs ys) + stake_of c (common xs ys) ≡ stake_of c xs + stake_of c ys
unfolding stake_of merge common
stake_of-merge-common c xs [] = omega arith
stake_of-merge-common c xs (y ∷ ys) = ground (arith, stake_of-merge-common c xs ys)

-- Two sets of distinct authorities that each reach the quorum hold, in common, at least twice the
-- quorum less the total: f + 1 votes or more of N = 3 f + 1. The stakes must fit a u32 together.
pub quorum_intersection :
    (c : Committee) (xs ys : List ℕ)
    → Fits c
    → Distinct xs
    → Distinct ys
    → quorum_threshold c ≤ stake_of c xs
    → quorum_threshold c ≤ stake_of c ys
    → (2 * quorum_threshold c ≤ total_votes c + stake_of c (common xs ys))
      × ((f : ℕ) → total_votes c ≡ 3 * f + 1 → f + 1 ≤ stake_of c (common xs ys))
quorum_intersection c xs ys fits dx dy qx qy = (
  overlap,
  λ f total. omega (arith, overlap, (thresholds c f 0 (omega arith) bound (omega arith)).0),
)
  where
    bound : total_votes c < u32_mod
    bound = omega (arith, total_votes-eq-exact_sum c fits)

    overlap : 2 * quorum_threshold c ≤ total_votes c + stake_of c (common xs ys)
    overlap = omega (
      arith,
      stake_of-merge-common c xs ys,
      stake_of-le-total c (merge xs ys) fits (merge-Distinct xs ys dx dy),
    )
