-- ===== src/Node/Client/Invariant.antt =====
-- What holds of the transactions that were sent at any time (node/src/client.rs).
use gnosis.Network.{Bytes}
use gnosis.Node.Client.{BytesMut, IsBytesMut, Client, transaction, Sending, transmit}
use gnosis.Prelude.{
  List, ◌∷◌, All, [], ◌≢◌, ℕ, Bool, ◌≤◌, ◌<◌, length, take, ◌≡◌, arith, sym, ◌∙◌, subst, ap,
  take-all, ◌⊎◌, inl, suc, ◌++◌, inr, ◌+◌, ◌%◌, Bool-cases, refl, nat_eq,
}
use gnosis.Prelude.Words.{u64_mod, be_bytes, add64}
use gnosis.Crypto.Bytes.{of_be_bytes, of_be_bytes-be_bytes, length-be_bytes, bytes_mod}

-- No two elements are equal.
unfoldable pub AllDistinct {ℓ} : {A : Type ℓ} → List A → Type ℓ
AllDistinct [] = Unit
AllDistinct (x ∷ xs) = All (λ y. y ≢ x) xs × AllDistinct xs

pub All-map {ℓ} :
    {A : Type ℓ} (P Q : A → Type ℓ) (xs : List A) → ((x : A) → P x → Q x) → All P xs → All Q xs
All-map P Q [] f h = tt
All-map P Q (x ∷ xs) f h = (f x h.0, All-map P Q xs f h.1)

-- A client for transactions that are big enough, and what it runs against.
pub record Setup : Type 0 where
  pub bytes_mut : BytesMut
  pub laws : IsBytesMut bytes_mut
  pub accepted : ℕ → Bool
  pub client : Client
  pub size : 9 ≤ client.size

module _ (setup : Setup) where
  open setup use {bytes_mut, laws, accepted, client, size}

  abbrev pub tx : ℕ → ℕ → Bytes
  tx = transaction bytes_mut accepted client

  pub length-tx : (tag n : ℕ) → length (tx tag n) ≡ client.size
  unfolding transaction
  length-tx tag n = laws.length-resize client.size _

  -- The first nine bytes tell the tag and the number.
  take-tx : (tag n : ℕ) → take 9 (tx tag n) ≡ tag ∷ be_bytes 8 n
  unfolding transaction
  take-tx tag n =
      ap (λ bs. take 9 (bytes_mut.resize client.size bs)) written
      ∙ laws.take-resize 9 client.size (tag ∷ be_bytes 8 n) size (omega (arith, nine))
      ∙ subst (λ k. take k (tag ∷ be_bytes 8 n) ≡ tag ∷ be_bytes 8 n) nine
          (take-all (tag ∷ be_bytes 8 n))
    where
      nine : length (tag ∷ be_bytes 8 n) ≡ 9
      nine = omega (arith, length-be_bytes 8 n)

      written : bytes_mut.put_u64 n (bytes_mut.put_u8 tag []) ≡ tag ∷ be_bytes 8 n
      written = laws.put_u64_lem n _ ∙ ap (λ bs. bs ++ be_bytes 8 n) (laws.put_u8_lem tag [])

  tx-injective :
      (tag tag' n n' : ℕ)
      → n < u64_mod
      → n' < u64_mod
      → tx tag n ≡ tx tag' n'
      → (tag ≡ tag') × (n ≡ n')
  unfolding bytes_mod
  tx-injective tag tag' n n' h h' e =
      let same : (tag ∷ be_bytes 8 n) ≡ (tag' ∷ be_bytes 8 n') =
        sym (take-tx tag n) ∙ ap (take 9) e ∙ take-tx tag' n' in
      (
        ap (λ bs. head_or_zero bs) same,
        sym (of_be_bytes-be_bytes 8 n h)
            ∙ ap (λ bs. of_be_bytes (rest_of bs)) same
            ∙ of_be_bytes-be_bytes 8 n' h',
      )
    where
      head_or_zero : Bytes → ℕ
      head_or_zero [] = 0
      head_or_zero (x ∷ xs) = x

      rest_of : Bytes → Bytes
      rest_of [] = []
      rest_of (x ∷ xs) = xs

  -- What was sent: samples below `c`, and the first `k` words after `r`.
  unfoldable pub IsOld : (r c k : ℕ) → Bytes → Type 0
  IsOld r c k t =
      ((j : ℕ) × (j < c) × (t ≡ tx 0 j))
      ⊎ ((i : ℕ) × (0 < i) × (i ≤ k) × (t ≡ tx 1 ((r + i) % u64_mod)))

  pub record Inv (r c k : ℕ) (st : Sending) : Type 0 where
    pub old : All (IsOld r c k) st.sent
    pub drawn : st.r ≡ (r + k) % u64_mod
    pub distinct : AllDistinct st.sent

  IsOld-mono : (r c c' k k' : ℕ) → c ≤ c' → k ≤ k' → (t : Bytes) → IsOld r c k t → IsOld r c' k' t
  unfolding IsOld
  IsOld-mono r c c' k k' hc hk t (inl (j, h, e)) = inl (j, omega arith, e)
  IsOld-mono r c c' k k' hc hk t (inr (i, h, h', e)) = inr (i, h, omega arith, e)

  sample_fresh : (r c k : ℕ) → c < u64_mod → (t : Bytes) → IsOld r c k t → t ≢ tx 0 c
  unfolding IsOld
  sample_fresh r c k h t (inl (j, below, e)) same =
      let is = (tx-injective 0 0 j c (omega arith) h (sym e ∙ same)).1 in omega arith
  sample_fresh r c k h t (inr (i, _, _, e)) same =
      let is = (tx-injective 1 0 ((r + i) % u64_mod) c (omega arith) h (sym e ∙ same)).0 in
      omega arith

  standard_fresh :
      (r c k : ℕ)
      → c ≤ u64_mod
      → suc k < u64_mod
      → (t : Bytes) → IsOld r c k t
      → t ≢ tx 1 ((r + suc k) % u64_mod)
  unfolding IsOld
  standard_fresh r c k hc h t (inl (j, below, e)) same =
      let is =
        (tx-injective 0 1 j ((r + suc k) % u64_mod) (omega arith) (omega arith) (sym e ∙ same)).0 in
      omega arith
  standard_fresh r c k hc h t (inr (i, pos, within, e)) same =
      let is =
        (tx-injective 1 1 ((r + i) % u64_mod) ((r + suc k) % u64_mod) (omega arith) (omega arith)
          (sym e ∙ same)).1 in
      omega arith

  transmit-Inv :
      (r c k : ℕ) (t : Bytes) (st : Sending)
      → Inv r c k st
      → IsOld r c k t
      → All (λ u. u ≢ t) st.sent
      → Inv r c k (transmit bytes_mut accepted client t st)
  unfolding transmit AllDistinct
  transmit-Inv r c k t st i is fresh = elim (Bool-cases (accepted (length st.sent))) [
    | inl taken ↦
        rw taken (record { old = (is, i.old); drawn = i.drawn; distinct = (fresh, i.distinct) })
    | inr refused ↦ rw refused (record { old = i.old; drawn = i.drawn; distinct = i.distinct })
  ]

  pub Inv-mono :
      (r c c' k k' : ℕ) (st : Sending)
      → c ≤ c'
      → k ≤ k'
      → (st.r ≡ (r + k') % u64_mod)
      → Inv r c k st
      → Inv r c' k' st
  Inv-mono r c c' k k' st hc hk drawn i = record {
    old = All-map (IsOld r c k) (IsOld r c' k') st.sent (IsOld-mono r c c' k k' hc hk) i.old;
    drawn = drawn;
    distinct = i.distinct;
  }

  pub sample-Inv :
      (r c n k : ℕ) (st : Sending)
      → Inv r c k st
      → c ≤ n
      → n < u64_mod
      → Inv r (suc n) k (transmit bytes_mut accepted client (tx 0 n) st)
  unfolding IsOld
  sample-Inv r c n k st i le h =
      transmit-Inv r (suc n) k (tx 0 n) st
        (Inv-mono r c (suc n) k k st (omega arith) (omega arith) i.drawn i)
        (inl (n, omega arith, refl))
        (All-map (IsOld r n k) (λ u. u ≢ tx 0 n) st.sent (sample_fresh r n k h)
          (Inv-mono r c n k k st le (omega arith) i.drawn i).old)

  pub standard-Inv :
      (r c k : ℕ) (st : Sending)
      → Inv r c k st
      → c ≤ u64_mod
      → suc k < u64_mod
      → Inv r c (suc k) (
          transmit bytes_mut accepted client (tx 1 (add64 st.r 1)) (record st { r = add64 st.r 1 }))
  unfolding IsOld
  standard-Inv r c k st i hc h =
      let next : add64 st.r 1 ≡ (r + suc k) % u64_mod = omega (arith, i.drawn) in
      rw next (
        transmit-Inv r c (suc k) (tx 1 ((r + suc k) % u64_mod))
          (record st { r = (r + suc k) % u64_mod })
          (record {
            old =
                All-map (IsOld r c k) (IsOld r c (suc k)) st.sent
                  (IsOld-mono r c c k (suc k) (omega arith) (omega arith)) i.old;
            drawn = refl;
            distinct = i.distinct;
          })
          (inr (suc k, omega arith, omega arith, refl))
          (All-map (IsOld r c k) (λ u. u ≢ tx 1 ((r + suc k) % u64_mod)) st.sent
            (standard_fresh r c k hc h) i.old))
