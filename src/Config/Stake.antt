-- ===== src/Config/Stake.antt =====
-- The stake that a set of authorities holds together (consensus/src/config.rs, `stake`).
use gnosis.Prelude.{
  ℕ, ◌+◌, ◌≤◌, ◌<◌, ◌≡◌, refl, ap, false, List, [], ◌∷◌, arith, ◌==◌, nat_eqb_iff, nat_eq,
}
use gnosis.Prelude.Words.{u32_mod}
use gnosis.Prelude.Map.{Map, values, lookup, remove, mem}
use gnosis.Config.{Authority, Committee, stake, stake_or_zero, sum_stakes, total_votes}

-- The stake of the authorities, with no wrap-around.
abbrev pub exact_sum : List Authority → ℕ
exact_sum [] = 0
exact_sum (a ∷ as') = a.stake + exact_sum as'

-- The committee's stakes fit a u32 together, so that no sum of them wraps.
abbrev pub Fits : Committee → Type 0
Fits c = exact_sum (values c.authorities) < u32_mod

pub sum_stakes-eq-exact_sum :
    (as' : List Authority) → exact_sum as' < u32_mod → sum_stakes as' ≡ exact_sum as'
unfolding sum_stakes
sum_stakes-eq-exact_sum [] h = refl
sum_stakes-eq-exact_sum (a ∷ as') h = omega (arith, sum_stakes-eq-exact_sum as' (omega arith))

pub total_votes-eq-exact_sum :
    (c : Committee) → Fits c → total_votes c ≡ exact_sum (values c.authorities)
unfolding total_votes
total_votes-eq-exact_sum c h = sum_stakes-eq-exact_sum (values c.authorities) h

-- The stake of a list of names.
unfoldable pub stake_of : Committee → List ℕ → ℕ
stake_of c [] = 0
stake_of c (x ∷ xs) = stake c x + stake_of c xs

-- No name stands twice.
abbrev pub Distinct : List ℕ → Type 0
Distinct [] = Unit {0}
Distinct (x ∷ xs) = (mem x xs ≡ false) × Distinct xs

stake_in : Map ℕ Authority → ℕ → ℕ
unfolding stake_or_zero
stake_in m x = stake_or_zero (lookup x m)

sum_in : Map ℕ Authority → List ℕ → ℕ
sum_in m [] = 0
sum_in m (x ∷ xs) = stake_in m x + sum_in m xs

-- Removing an authority takes its stake off the total.
stake_in-remove :
    (m : Map ℕ Authority) (x : ℕ)
    → stake_in m x + exact_sum (values (remove x m)) ≤ exact_sum (values m)
unfolding stake_in lookup remove
stake_in-remove [] x = omega arith
stake_in-remove ((k, a) ∷ m) x = ground (arith, stake_in-remove m x, remove-le m x)
  where
    remove-le :
        (m : Map ℕ Authority) (x : ℕ) → exact_sum (values (remove x m)) ≤ exact_sum (values m)
    remove-le [] x = omega arith
    remove-le ((k, a) ∷ m) x = ground (arith, remove-le m x)

-- The other authorities keep theirs.
stake_in-remove_ne :
    (m : Map ℕ Authority) (x y : ℕ) → (x == y) ≡ false → stake_in (remove x m) y ≡ stake_in m y
unfolding stake_in lookup remove
stake_in-remove_ne [] x y h = refl
stake_in-remove_ne ((k, a) ∷ m) x y h = ground (arith, stake_in-remove_ne m x y)

sum_in-remove :
    (m : Map ℕ Authority) (x : ℕ) (xs : List ℕ)
    → mem x xs ≡ false
    → sum_in (remove x m) xs ≡ sum_in m xs
unfolding sum_in mem
sum_in-remove m x [] h = refl
sum_in-remove m x (y ∷ xs) h =
    ground (arith, stake_in-remove_ne m x y, sum_in-remove m x xs, nat_eqb_iff x y)

sum_in-le : (xs : List ℕ) (m : Map ℕ Authority) → Distinct xs → sum_in m xs ≤ exact_sum (values m)
unfolding sum_in
sum_in-le [] m d = omega arith
sum_in-le (x ∷ xs) m d =
    omega (arith, stake_in-remove m x, sum_in-remove m x xs d.0, sum_in-le xs (remove x m) d.1)

stake_of-eq-sum_in : (c : Committee) (xs : List ℕ) → stake_of c xs ≡ sum_in c.authorities xs
unfolding stake_of sum_in stake stake_in
stake_of-eq-sum_in c [] = refl
stake_of-eq-sum_in c (x ∷ xs) = ap (λ n. stake c x + n) (stake_of-eq-sum_in c xs)

-- Distinct authorities never hold more than the committee's whole stake, if the stakes fit a u32
-- together.
pub stake_of-le-total :
    (c : Committee) (xs : List ℕ) → Fits c → Distinct xs → stake_of c xs ≤ total_votes c
stake_of-le-total c xs h d =
    omega
      (arith, stake_of-eq-sum_in c xs, sum_in-le xs c.authorities d, total_votes-eq-exact_sum c h)
