-- ===== src/Prelude/Map.antt =====
-- `HashMap` and `HashSet` as association lists. A key stands once; the order of the entries, which
-- a hash map leaves open, is that of insertion.
use gnosis.Prelude.Tests.{nat_eq, ◌==◌, if◌then◌else◌, Eq, Bool-cases}
use Prim.Native.Nat.{ℕ, zero, suc}
use gnosis.Prelude.Lists.{In, sort, insert_sorted, take}
use mathlib.Core.Path.{◌≡◌, refl, ap, ◌∙◌}
use mathlib.Core.Logic.{inl, inr}
use mathlib.Core.Bool.{Bool, true, false}
use mathlib.Core.Option.{Option, none, some}
use mathlib.Core.List.{List, [], ◌∷◌, map}
use native.Mathlib.Omega.{arith}

abbrev pub Map : Type 0 → Type 0 → Type 0
Map K V = List (K × V)

module _ {K V : Type 0} where
  abbrev pub keys : Map K V → List K
  keys = map (λ e. e.0)

  abbrev pub values : Map K V → List V
  values = map (λ e. e.1)

  -- retain(|k, _| p k)
  unfoldable pub retain : (K → Bool) → Map K V → Map K V
  retain p [] = []
  retain p (e ∷ m) = let rest = retain p m in if p e.0 then e ∷ rest else rest

module _ {K V : Type 0} ⦃eq : Eq K⦄ where
  unfoldable pub lookup : K → Map K V → Option V
  lookup k [] = none
  lookup k (e ∷ m) = if e.0 == k then some e.1 else lookup k m

  abbrev pub contains_key : K → Map K V → Bool
  contains_key k m = elim (lookup k m) [ none ↦ false | some v ↦ true ]

  unfoldable pub insert : K → V → Map K V → Map K V
  insert k v [] = (k, v) ∷ []
  insert k v (e ∷ m) = if e.0 == k then (k, v) ∷ m else e ∷ insert k v m

  unfoldable pub remove : K → Map K V → Map K V
  remove k [] = []
  remove k (e ∷ m) = let rest = remove k m in if e.0 == k then rest else e ∷ rest

  -- *entry(k).or_insert(v)
  abbrev pub get_or : K → V → Map K V → V
  get_or k v m = elim (lookup k m) [ none ↦ v | some w ↦ w ]

  -- The map that `entry(k).or_insert(v)` leaves.
  unfoldable pub or_insert : K → V → Map K V → Map K V
  or_insert k v m = if contains_key k m then m else insert k v m

-- `HashSet`
module _ {K : Type 0} ⦃eq : Eq K⦄ where
  unfoldable pub mem : K → List K → Bool
  mem k [] = false
  mem k (x ∷ xs) = if x == k then true else mem k xs

  unfoldable pub add : K → List K → List K
  add k xs = if mem k xs then xs else k ∷ xs

  unfoldable pub discard : K → List K → List K
  discard k [] = []
  discard k (x ∷ xs) = let rest = discard k xs in if x == k then rest else x ∷ rest

  -- One after the other, from the first.
  unfoldable pub discard_all : List K → List K → List K
  discard_all [] xs = xs
  discard_all (k ∷ ks) xs = discard_all ks (discard k xs)

module _ {K V : Type 0} ⦃eq : Eq K⦄ where
  pub lookup-insert :
      (k j : K) (v : V) (m : Map K V)
      → lookup j (insert k v m) ≡ (if k == j then some v else lookup j m)
  unfolding lookup insert
  lookup-insert k j v [] = refl
  lookup-insert k j v (e ∷ m) =
      ground (arith, eq.beq_iff e.0 k, eq.beq_iff e.0 j, eq.beq_iff k j, lookup-insert k j v m)

  pub In-lookup : (k : K) (v : V) (m : Map K V) → lookup k m ≡ some v → In (k, v) m
  unfolding In lookup
  In-lookup k v [] found = ground (arith, found)
  In-lookup k v (x ∷ m) found = elim (Bool-cases (x.0 == k)) [
    | inl same ↦
        let key = (eq.beq_iff x.0 k).0 same in
        let value : some x.1 ≡ some v = rw same at found in inl cc
    | inr other ↦ inr (In-lookup k v m (rw other at found))
  ]

  pub contains_key-insert :
      (k j : K) (v : V) (m : Map K V)
      → contains_key j (insert k v m) ≡ (if k == j then true else contains_key j m)
  contains_key-insert k j v m = ground (arith, lookup-insert k j v m)

  pub lookup-remove :
      (k j : K) (m : Map K V) → lookup j (remove k m) ≡ (if k == j then none else lookup j m)
  unfolding lookup remove
  lookup-remove k j [] = ground arith
  lookup-remove k j (e ∷ m) =
      ground (arith, eq.beq_iff e.0 k, eq.beq_iff e.0 j, eq.beq_iff k j, lookup-remove k j m)

  pub get_or-insert :
      (k j : K) (d v : V) (m : Map K V)
      → get_or j d (insert k v m) ≡ (if k == j then v else get_or j d m)
  get_or-insert k j d v m = ground (arith, lookup-insert k j v m)

  pub get_or-remove :
      (k j : K) (d : V) (m : Map K V)
      → get_or j d (remove k m) ≡ (if k == j then d else get_or j d m)
  get_or-remove k j d m = ground (arith, lookup-remove k j m)

  pub lookup-retain :
      (p : K → Bool) (j : K) (m : Map K V)
      → lookup j (retain p m) ≡ (if p j then lookup j m else none)
  unfolding lookup retain
  lookup-retain p j [] = ground arith
  lookup-retain p j (e ∷ m) = elim (Bool-cases (e.0 == j)) [
    | inl same ↦
        let at : e.0 ≡ j = (eq.beq_iff e.0 j).0 same in ground (arith, lookup-retain p j m, ap p at)
    | inr other ↦ ground (arith, lookup-retain p j m)
  ]

module _ {K : Type 0} ⦃eq : Eq K⦄ where
  pub mem-add : (k j : K) (xs : List K) → mem j (add k xs) ≡ (if k == j then true else mem j xs)
  unfolding mem add
  mem-add k j xs = ground (arith, eq.beq_iff k j)

  pub mem-take : (n : ℕ) (k : K) (xs : List K) → mem k (take n xs) ≡ true → mem k xs ≡ true
  unfolding mem
  mem-take zero k xs h = ground arith
  mem-take (suc n) k [] h = h
  mem-take (suc n) k (x ∷ xs) h = ground (arith, mem-take n k xs)

module _ {K : Type 0} ⦃eq : Eq K⦄ where
  pub mem-discard :
      (k j : K) (xs : List K) → mem j (discard k xs) ≡ (if k == j then false else mem j xs)
  unfolding mem discard
  mem-discard k j [] = ground arith
  mem-discard k j (x ∷ xs) =
      ground (arith, eq.beq_iff x k, eq.beq_iff x j, eq.beq_iff k j, mem-discard k j xs)

  pub mem-discard_all :
      (ks : List K) (j : K) (xs : List K)
      → mem j (discard_all ks xs) ≡ (if mem j ks then false else mem j xs)
  unfolding mem discard_all
  mem-discard_all [] j xs = refl
  mem-discard_all (k ∷ ks) j xs =
      ground (arith, mem-discard_all ks j (discard k xs), mem-discard k j xs)

-- Sorting keeps the elements.
pub mem-sort : (x : ℕ) (xs : List ℕ) → mem x (sort xs) ≡ mem x xs
unfolding sort mem
mem-sort x [] = refl
mem-sort x (y ∷ ys) =
    mem-insert_sorted y (sort ys) ∙ ap (λ b. if y == x then true else b) (mem-sort x ys)
  where
    mem-insert_sorted :
        (y : ℕ) (ys : List ℕ) → mem x (insert_sorted y ys) ≡ (if y == x then true else mem x ys)
    mem-insert_sorted y [] = refl
    mem-insert_sorted y (z ∷ zs) = ground (arith, mem-insert_sorted y zs)
