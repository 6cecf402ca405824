-- ===== src/Leader/Elected.antt =====
-- The leaders of a height and their places (consensus/src/leader.rs), from the list to the index.
use gnosis.Error.{ok}
use gnosis.Config.{Committee}
use gnosis.Prelude.Map.{mem, Map, lookup, mem-sort, insert, lookup-insert, keys}
use gnosis.Prelude.{
  List, sort, ℕ, insert_sorted, Bool, ◌≡◌, ◌<◌, true, false, ◌+◌, ◌∷◌, get_elem?, ◌%◌, not, suc,
  some, ◌-◌, nat_eq, [], ◌&&◌, ◌∙◌, arith, Bool-cases, ap, ltb, refl, zero, inl, inr, subst,
  if◌then◌else◌, ◌==◌, nat_eqb_iff, ◌≤◌, length, nat_eqb, sym, ◌*◌,
}
use native.Mathlib.Nat.{add-mod_right, mod-lt, mod-eq_of_lt}
use gnosis.Leader
use gnosis.Leader.{places, new}
use gnosis.Prelude.Words.{u64_mod}
use gnosis.Leader.Window.{get_leaders-at, wrap}

-- Whether no name stands twice.
unfoldable pub distinct : List ℕ → Bool
distinct [] = true
distinct (x ∷ xs) = not (mem x xs) && distinct xs

mem-insert_sorted :
    (z x : ℕ) (xs : List ℕ) → mem z (insert_sorted x xs) ≡ (if x == z then true else mem z xs)
unfolding mem insert_sorted
mem-insert_sorted z x [] = refl
mem-insert_sorted z x (y ∷ ys) = ground (arith, mem-insert_sorted z x ys)

distinct-insert_sorted :
    (x : ℕ) (xs : List ℕ)
    → mem x xs ≡ false
    → distinct xs ≡ true
    → distinct (insert_sorted x xs) ≡ true
unfolding distinct insert_sorted mem
distinct-insert_sorted x [] fresh h = refl
distinct-insert_sorted x (y ∷ ys) fresh h = ground (
  arith,
  h,
  fresh,
  distinct-insert_sorted x ys (ground (arith, fresh)) (ground (arith, h)),
  mem-insert_sorted y x ys,
)

distinct-sort : (xs : List ℕ) → distinct xs ≡ true → distinct (sort xs) ≡ true
unfolding distinct sort
distinct-sort [] h = refl
distinct-sort (x ∷ xs) h =
    distinct-insert_sorted x (sort xs) (mem-sort x xs ∙ ground (arith, h))
      (distinct-sort xs (ground (arith, h)))

lookup-places_fresh :
    (x i : ℕ) (xs : List ℕ) (m : Map ℕ ℕ) → mem x xs ≡ false → lookup x (places i xs m) ≡ lookup x m
unfolding places mem
lookup-places_fresh x i [] m fresh = refl
lookup-places_fresh x i (y ∷ ys) m fresh =
    lookup-places_fresh x (suc i) ys (insert y i m) (ground (arith, fresh))
    ∙ ground (arith, fresh, lookup-insert y x i m)

lookup-places :
    (x i k : ℕ) (xs : List ℕ) (m : Map ℕ ℕ)
    → distinct xs ≡ true
    → get_elem? xs k ≡ some x
    → lookup x (places i xs m) ≡ some (i + k)
unfolding places distinct
lookup-places x i k [] m h at = ground (arith, at)
lookup-places x i zero (y ∷ ys) m h at =
    let same : y ≡ x = ground (arith, at) in
    let entered = lookup-places_fresh y (suc i) ys (insert y i m) (ground (arith, h)) in
    subst (λ v. lookup v (places (suc i) ys (insert y i m)) ≡ some (i + 0)) same
      (entered ∙ ground (arith, lookup-insert y y i m, nat_eqb_iff y y))
lookup-places x i (suc k) (y ∷ ys) m h at =
    lookup-places x (suc i) k ys (insert y i m) (ground (arith, h)) at ∙ ap some (omega arith)

-- A place in the window, back from around the ring.
back : (n start j : ℕ) → start < n → j < n → ((start + j + n) % n + n - start) % n ≡ j
back n start j ls lj = elim (Bool-cases (ltb (start + j) n)) [
  | inl small ↦
      let at : (start + j + n) % n ≡ start + j = wrap (start + j) n (ground arith) in
      ap (λ q. (q + n - start) % n) at ∙ ap (λ q. q % n) moved ∙ wrap j n lj
  | inr big ↦
      let over : start + j + n ≡ start + j - n + n + n = ground (arith, big) in
      let at : (start + j + n) % n ≡ start + j - n =
        ap (λ q. q % n) over
        ∙ add-mod_right (start + j - n + n) n
        ∙ wrap (start + j - n) n (omega arith) in
      let home : start + j - n + n - start ≡ j = ground (arith, big) in
      ap (λ q. (q + n - start) % n) at ∙ ap (λ q. q % n) home ∙ mod-eq_of_lt lj
]
  where
    moved : start + j + n - start ≡ j + n
    moved = omega arith

-- Where no authority stands twice and the window is not larger than the committee, each of the
-- leaders that get_leaders returns for a height has its place in the list as its index there. The
-- window and twice the committee must fit a usize of 64 bits together.
pub get_leaders-index_as_leader :
    (c : Committee) (leader_window name height j : ℕ) (leaders : List ℕ)
    → distinct (keys c.authorities) ≡ true
    → leader_window ≤ length (sort (keys c.authorities))
    → leader_window + 2 * length (sort (keys c.authorities)) ≤ u64_mod
    → Leader.get_leaders (Leader.new c leader_window) height ≡ ok leaders
    → get_elem? leaders j ≡ some name
    → j < leader_window
    → Leader.index_as_leader (Leader.new c leader_window) name height ≡ ok (some j)
unfolding Leader.get_leader_idx Leader.new Leader.index_as_leader
get_leaders-index_as_leader c w name height j leaders unique fits no_wrap made at below =
    let names : List ℕ = sort (keys c.authorities) in
    let n : ℕ = length names in
    let pos : 0 < n = omega (arith, fits, below) in
    let full : nat_eqb n 0 ≡ false = ground (arith, pos) in
    let (found, e, placed) = get_leaders-at (Leader.new c w) height pos no_wrap in
    let same : ok leaders ≡ ok found = sym made ∙ e in
    let listed : found ≡ leaders = cc in
    let start : ℕ = height % n in
    let q : ℕ = (start + j + n) % n in
    let place : get_elem? names q ≡ some name =
      sym (placed j below) ∙ ap (λ l. get_elem? l j) listed ∙ at in
    let known : lookup name (places 0 names []) ≡ some q =
      lookup-places name 0 q names [] (distinct-sort (keys c.authorities) unique) place
      ∙ ap some (from_zero q) in
    let home : (q + n - start) % n ≡ j =
      back n start j (mod-lt height pos) (omega (arith, fits, below)) in
    let within : ltb j w ≡ true = ground (arith, below) in rw (full, known, home, within) refl
  where
    from_zero : (q : ℕ) → 0 + q ≡ q
    from_zero q = omega arith
