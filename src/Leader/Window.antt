-- ===== src/Leader/Window.antt =====
-- The two views of the leaders of a height: index_as_leader and get_leaders of
-- consensus/src/leader.rs.
use gnosis.Config.{Committee}
use gnosis.Error.{ok}
use gnosis.Prelude.Map.{Map, lookup, insert, keys, lookup-insert}
use gnosis.Prelude.{
  List, ℕ, ◌<◌, get_elem?, length, ◌≡◌, some, ◌+◌, ◌∷◌, arith, ◌%◌, ◌-◌, suc, [], zero, nat_eq,
  refl, Bool-cases, ◌∙◌, ◌≤◌, ◌==◌, leb, sort, inl, sym, leb→le, nat_eqb, ap, inr, none,
  Option-cases, false, ◌*◌,
}
use gnosis.Leader.{places, leaders_from, LeaderElector}
use native.Mathlib.Nat.{add-mod_right, mod-lt, mod-eq_of_lt}
use gnosis.Prelude.Words.{add64, u64_mod}
use gnosis.Leader

-- Each name stands at its place.
places-at :
    (names xs : List ℕ) (i : ℕ) (m : Map ℕ ℕ)
    → ((x p : ℕ) → lookup x m ≡ some p → get_elem? names p ≡ some x)
    → ((j : ℕ) → get_elem? xs j ≡ get_elem? names (i + j))
    → (x p : ℕ) → lookup x (places i xs m) ≡ some p
    → get_elem? names p ≡ some x
unfolding places
places-at names [] i m old tail x p h = old x p h
places-at names (y ∷ ys) i m old tail x p h =
    places-at names ys (suc i) (insert y i m) new
      (λ j. tail (suc j) ∙ ap (get_elem? names) (shift j)) x p h
  where
    new : (x p : ℕ) → lookup x (insert y i m) ≡ some p → get_elem? names p ≡ some x
    new x p h = elim (Bool-cases (y == x)) [
      | inl same ↦
          let found : some i ≡ some p = rw same at (sym (lookup-insert y x i m) ∙ h) in
          ground (arith, tail 0, found)
      | inr other ↦ old x p (rw other at (sym (lookup-insert y x i m) ∙ h))
    ]

    shift : (j : ℕ) → i + suc j ≡ suc i + j
    shift j = omega arith

get_elem?-lt : (xs : List ℕ) (i : ℕ) → i < length xs → (x : ℕ) × (get_elem? xs i ≡ some x)
get_elem?-lt [] i lt = absurd (omega arith)
get_elem?-lt (x ∷ xs) zero lt = (x, refl)
get_elem?-lt (x ∷ xs) (suc i) lt = get_elem?-lt xs i (omega arith)

get_elem?-bound : (xs : List ℕ) (i : ℕ) {x : ℕ} → get_elem? xs i ≡ some x → i < length xs
get_elem?-bound [] i h = cc
get_elem?-bound (x ∷ xs) zero h = omega arith
get_elem?-bound (x ∷ xs) (suc i) h = omega (arith, get_elem?-bound xs i h)

leaders_from-suc :
    (names leaders : List ℕ) (i count : ℕ) {name : ℕ}
    → get_elem? names (add64 i (length names) % length names) ≡ some name
    → leaders_from names (suc i) count ≡ ok leaders
    → leaders_from names i (suc count) ≡ ok (name ∷ leaders)
unfolding leaders_from
leaders_from-suc names leaders i count here rest = ground (arith, here, rest)

cons-at :
    (names leaders : List ℕ) (start count : ℕ) {name : ℕ}
    → get_elem? names ((start + length names) % length names) ≡ some name
    → ((i : ℕ)
        → i < count
        → get_elem? leaders i ≡ get_elem? names ((suc start + i + length names) % length names))
    → (i : ℕ) → i < suc count
    → get_elem? (name ∷ leaders) i ≡ get_elem? names ((start + i + length names) % length names)
cons-at names leaders start count here at zero lt =
    sym here ∙ ap (λ k. get_elem? names ((k + length names) % length names)) first
  where
    first : start ≡ start + 0
    first = omega arith
cons-at names leaders start count here at (suc i) lt =
    at i (omega arith) ∙ ap (λ k. get_elem? names ((k + length names) % length names)) next
  where
    next : suc start + i ≡ start + suc i
    next = omega arith

-- A sum that does not wrap.
pub add64-fits : (a b : ℕ) → a + b < u64_mod → add64 a b ≡ a + b
add64-fits a b fits = mod-eq_of_lt fits

-- The leaders of the loop, each by its place, where no sum wraps.
pub leaders_from-at :
    (names : List ℕ) (start count : ℕ)
    → 0 < length names
    → start + count + length names ≤ u64_mod
    → (leaders : List ℕ) × (leaders_from names start count ≡ ok leaders)
      × ((i : ℕ)
          → i < count
          → get_elem? leaders i ≡ get_elem? names ((start + i + length names) % length names))
unfolding leaders_from
leaders_from-at names start zero pos fits = ([], refl, λ i lt. absurd (omega arith))
leaders_from-at names start (suc count) pos fits =
    let (leaders, e, at) = leaders_from-at names (suc start) count pos (omega (arith, fits)) in
    let (name, here) = get_elem?-lt names ((start + length names) % length names) (mod-lt _ pos) in
    let same = add64-fits start (length names) (omega (arith, fits)) in
    (
      name ∷ leaders,
      leaders_from-suc names leaders start count
          (ap (λ k. get_elem? names (k % length names)) same ∙ here) e,
      cons-at names leaders start count here at,
    )

-- The whole window, where no sum wraps.
pub get_leaders-at :
    (e : LeaderElector) (height : ℕ)
    → 0 < length e.names
    → e.leader_window + 2 * length e.names ≤ u64_mod
    → (leaders : List ℕ) × (Leader.get_leaders e height ≡ ok leaders)
      × ((i : ℕ)
          → i < e.leader_window
          → get_elem? leaders i
            ≡ get_elem? e.names ((height % length e.names + i + length e.names) % length e.names))
unfolding Leader.get_leaders Leader.get_leader_idx
get_leaders-at e height pos fits =
    let n : ℕ = length e.names in
    let start : ℕ = height % n in
    let low : start < n = mod-lt height pos in
    let (leaders, found, at) =
      leaders_from-at e.names start e.leader_window pos (omega (arith, low, fits)) in
    let full : nat_eqb n 0 ≡ false = ground (arith, pos) in
    let count : add64 start e.leader_window - start ≡ e.leader_window =
      ap (λ k. k - start) (add64-fits start e.leader_window (omega (arith, low, fits)))
      ∙ omega arith in
    (leaders, rw full (ap (leaders_from e.names start) count ∙ found), at)

-- A number below n, after n more.
pub wrap : (r n : ℕ) → r < n → (r + n) % n ≡ r
wrap r n lt = add-mod_right r n ∙ mod-eq_of_lt lt

-- The place in the window, around the ring.
around : (n start p : ℕ) → start < n → p < n → (start + (p + n - start) % n + n) % n ≡ p
around n start p ls lp = elim (Bool-cases (leb start p)) [
  | inl before ↦
      let le : start ≤ p = leb→le _ _ before in
      let i : (p + n - start) % n ≡ p - start =
        ap (λ k. k % n) (unwrapped le) ∙ wrap (p - start) n (omega arith) in
      ap (λ k. (start + k + n) % n) i ∙ ap (λ k. (k + n) % n) (back le) ∙ wrap p n lp
  | inr after ↦
      let lt : p < start = ground arith in
      let i : (p + n - start) % n ≡ p + n - start = mod-eq_of_lt (omega arith) in
      ap (λ k. (start + k + n) % n) i
      ∙ ap (λ k. (k + n) % n) (forth lt)
      ∙ add-mod_right (p + n) n
      ∙ wrap p n lp
]
  where
    unwrapped : start ≤ p → p + n - start ≡ p - start + n
    unwrapped le = omega arith

    back : start ≤ p → start + (p - start) ≡ p
    back le = omega arith

    forth : p < start → start + (p + n - start) ≡ p + n
    forth lt = omega arith

-- What a place in the window says of the elector.
index_as_leader-eq-ok :
    (e : LeaderElector) (name height i : ℕ)
    → Leader.index_as_leader e name height ≡ ok (some i)
    → (p : ℕ) × (0 < length e.names)
      × (lookup name e.name_to_idx ≡ some p)
      × (i ≡ (p + length e.names - height % length e.names) % length e.names)
      × (i < e.leader_window)
unfolding Leader.index_as_leader Leader.get_leader_idx
index_as_leader-eq-ok e name height i h = elim (Bool-cases (nat_eqb (length e.names) 0)) [
  | inl empty ↦ let bad = rw empty at h in cc
  | inr full ↦ elim (Option-cases (lookup name e.name_to_idx)) [
    | inl missing ↦ let bad = rw (full, missing) at h in cc
    | inr (p, found) ↦
        let place = rw (full, found) at h in (p, ground arith, found, ground arith, ground arith)
  ]
]

-- The leaders of a height, each at the place that index_as_leader finds: if an elector made of a
-- committee gives an authority the index i at a height, then get_leaders returns a list for that
-- height, the authority is its i-th, and i is below the size of the window. The window and twice the
-- committee must fit a usize of 64 bits together.
pub index_as_leader-get_leaders :
    (c : Committee) (leader_window name height i : ℕ)
    → leader_window + 2 * length (sort (keys c.authorities)) ≤ u64_mod
    → Leader.index_as_leader (Leader.new c leader_window) name height ≡ ok (some i)
    → (leaders : List ℕ) × (Leader.get_leaders (Leader.new c leader_window) height ≡ ok leaders)
      × (get_elem? leaders i ≡ some name)
      × (i < leader_window)
unfolding Leader.new lookup
index_as_leader-get_leaders c w name height i fits h =
    let names : List ℕ = sort (keys c.authorities) in
    let n : ℕ = length names in
    let (p, pos, found, place, below) = index_as_leader-eq-ok (Leader.new c w) name height i h in
    let (leaders, e, at) = get_leaders-at (Leader.new c w) height pos fits in
    let here : get_elem? names p ≡ some name =
      places-at names names 0 [] (λ x p h. absurd (bottom h))
        (λ j. ap (get_elem? names) (from_start j)) name p found in
    let ring = around n (height % n) p (mod-lt height pos) (get_elem?-bound names p here) in
    (
      leaders,
      e,
      at i below
          ∙ ap (λ k. get_elem? names ((height % n + k + n) % n)) place
          ∙ ap (get_elem? names) ring
          ∙ here,
      below,
    )
  where
    bottom : {p : ℕ} → none ≡ some p → ⊥
    bottom h = cc

    from_start : (j : ℕ) → j ≡ 0 + j
    from_start j = omega arith
