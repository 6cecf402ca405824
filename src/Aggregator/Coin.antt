-- ===== src/Aggregator/Coin.antt =====
-- The leader that the random coin elects (SMVBARandomCoinMaker::append of
-- consensus/src/aggregator.rs).
use gnosis.Error.{ok}
use gnosis.Prelude.{
  List, ℕ, ◌<◌, length, ◌≡◌, get_elem?, some, ◌∷◌, true, arith, nat_eq, [], suc, zero, refl, map,
  sort, ap, length-sort, ◌∙◌, take, ◌%◌, sym,
}
use gnosis.Config.{size, Committee}
use gnosis.Prelude.Map.{mem, lookup, Map, keys, contains_key, mem-sort}
use native.Mathlib.Nat.{mod-lt}
use gnosis.Aggregator.{coin_leader, from_be_bytes}

get_elem?-some :
    (xs : List ℕ) (i : ℕ) → i < length xs → (x : ℕ) × (get_elem? xs i ≡ some x) × (mem x xs ≡ true)
unfolding mem
get_elem?-some [] i lt = absurd (omega arith)
get_elem?-some (x ∷ xs) zero lt = (x, refl, ground arith)
get_elem?-some (x ∷ xs) (suc i) lt =
    let (y, e, h) = get_elem?-some xs i (omega arith) in (y, e, ground (arith, h))

mem-keys : (x : ℕ) {V : Type 0} (m : Map ℕ V) → mem x (keys m) ≡ contains_key x m
unfolding mem lookup
mem-keys x [] = refl
mem-keys x (e ∷ m) = ground (arith, mem-keys x m)

length-map : {A : Type 0} (f : A → ℕ) (xs : List A) → length (map f xs) ≡ length xs
length-map f [] = refl
length-map f (x ∷ xs) = ap suc (length-map f xs)

elected :
    (c : Committee) (sig : List ℕ) {k : ℕ}
    → get_elem? (sort (keys c.authorities)) (from_be_bytes 0 (take 8 sig) % size c) ≡ some k
    → coin_leader c sig ≡ ok k
unfolding coin_leader
elected c sig e = ground (arith, e)

-- Any combined signature elects an authority of a committee that is not empty.
pub coin_leader-contains_key :
    (c : Committee) (sig : List ℕ)
    → 0 < size c
    → (k : ℕ) × (coin_leader c sig ≡ ok k) × (contains_key k c.authorities ≡ true)
unfolding size
coin_leader-contains_key c sig pos =
    let names : List ℕ = keys c.authorities in
    let many : length (sort names) ≡ size c =
      length-sort names ∙ length-map (λ e. e.0) c.authorities in
    let place : ℕ = from_be_bytes 0 (take 8 sig) % size c in
    let (k, e, h) =
      get_elem?-some (sort names) place
        (omega (arith, many, mod-lt (from_be_bytes 0 (take 8 sig)) pos)) in
    (k, elected c sig e, sym (mem-keys k c.authorities) ∙ sym (mem-sort k names) ∙ h)
