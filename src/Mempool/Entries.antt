-- ===== src/Mempool/Entries.antt =====
-- The entries of the maps of the synchronizer, and its waiters (mempool/src/synchronizer.rs).
use gnosis.Prelude.Map.{insert, Map, remove}
use gnosis.Prelude.{
  In, ℕ, List, ◌≡◌, ◌∷◌, ◌⊎◌, Bool-cases, true, arith, ◌==◌, ltb, inl, nat_eqb_iff, inr, ap, [],
  ◌∙◌, sym, nat_eq, refl,
}
use gnosis.Crypto.{Digest}
use gnosis.Mempool.Synchronizer.{Waiter, without, retain_above}
use gnosis.Mempool.System.{held}

module _ (d : Digest) (e : ℕ × ℕ) where
  pub In-insert :
      (k : Digest) (v : ℕ × ℕ) (m : Map Digest (ℕ × ℕ))
      → In (d, e) (insert k v m)
      → (◌≡◌ {A = Digest × (ℕ × ℕ)} (k, v) (d, e)) ⊎ In (d, e) m
  unfolding In insert
  In-insert k v [] h = h
  In-insert k v (x ∷ m) h = elim (Bool-cases (x.0 == k)) [
    | inl same ↦ elim (rw same at h) [ inl new ↦ inl new | inr later ↦ inr (inr later) ]
    | inr other ↦ elim (rw other at h) [
      | inl here ↦ inr (inl here)
      | inr later ↦ elim (In-insert k v m later) [ inl new ↦ inl new | inr old ↦ inr (inr old) ]
    ]
  ]

  pub In-retain_above :
      (round : ℕ) (m : Map Digest (ℕ × ℕ)) → In (d, e) (retain_above round m) → In (d, e) m
  unfolding In retain_above
  In-retain_above round [] h = h
  In-retain_above round (x ∷ m) h = elim (Bool-cases (ltb round x.1.0)) [
    | inl stays ↦ elim (rw stays at h) [
      | inl here ↦ inl here
      | inr later ↦ inr (In-retain_above round m later)
    ]
    | inr goes ↦ inr (In-retain_above round m (rw goes at h))
  ]

  pub In-remove :
      (k : Digest) (m : Map Digest (ℕ × ℕ)) → In (d, e) (remove k m) → In (d, e) m × ((k ≡ d) → ⊥)
  unfolding In remove
  In-remove k [] h = elim h [ ]
  In-remove k (x ∷ m) h = elim (Bool-cases (x.0 == k)) [
    | inl same ↦ let rest = In-remove k m (rw same at h) in (inr rest.0, rest.1)
    | inr other ↦ elim (rw other at h) [
      | inl here ↦ (
        inl here,
        λ at.
            let same = (nat_eqb_iff x.0 k).1 (ap (λ p. p.0) here ∙ sym at) in ground (arith, same),
      )
      | inr later ↦ let rest = In-remove k m later in (inr rest.0, rest.1)
    ]
  ]

  pub held-In : (m : Map Digest (ℕ × ℕ)) → In (d, e) m → held e.1 m ≡ true
  unfolding In held
  held-In [] h = elim h [ ]
  held-In (x ∷ m) h = elim (Bool-cases (x.1.1 == e.1)) [
    | inl same ↦ rw same refl
    | inr other ↦ elim h [
      | inl here ↦ let same = (nat_eqb_iff x.1.1 e.1).1 (ap (λ p. p.1.1) here) in rw same refl
      | inr later ↦ rw other (held-In m later)
    ]
  ]

pub In-without :
    (w : Waiter) (id : ℕ) (ws : List Waiter) → In w (without id ws) → In w ws × ((w.id ≡ id) → ⊥)
unfolding In without
In-without w id [] h = elim h [ ]
In-without w id (x ∷ ws) h = elim (Bool-cases (x.id == id)) [
  | inl same ↦ let rest = In-without w id ws (rw same at h) in (inr rest.0, rest.1)
  | inr other ↦ elim (rw other at h) [
    | inl here ↦ (
      inl here,
      λ at. let same = (nat_eqb_iff x.id id).1 (ap (λ v. v.id) here ∙ at) in ground (arith, same),
    )
    | inr later ↦ let rest = In-without w id ws later in (inr rest.0, rest.1)
  ]
]

pub without-In :
    (w : Waiter) (id : ℕ) (ws : List Waiter) → In w ws → ((w.id ≡ id) → ⊥) → In w (without id ws)
unfolding In without
without-In w id [] h other = h
without-In w id (x ∷ ws) h other = elim (Bool-cases (x.id == id)) [
  | inl same ↦ elim h [
    | inl here ↦ elim (other (ap (λ v. v.id) (sym here) ∙ (nat_eqb_iff x.id id).0 same)) [ ]
    | inr later ↦ rw same (without-In w id ws later other)
  ]
  | inr differs ↦ elim h [
    | inl here ↦ rw differs (inl here)
    | inr later ↦ rw differs (inr (without-In w id ws later other))
  ]
]
