-- ===== src/Mempool/Handled.antt =====
-- The handlers keep the invariant of Queues (mempool/src/core.rs).
use gnosis.Messages.{Block}
use gnosis.Config.{SocketAddr}
use gnosis.Mempool.Triple.{
  Triple, Triple-get, ◌▷◌, Triple-modify, Triple-lift, Triple-weaken, Triple-pure, Triple-if,
}
use gnosis.Prelude.{
  List, Option, triple_eq, some, none, ◌≡◌, true, nat_eq, ◌∷◌, [], ℕ, arith, take, Bool-cases, sym,
  ◌/◌, ◌==◌, ◌∙◌, subst, inl, ◌⊎◌, nat_eqb_iff, inr, false, is_empty, refl,
}
use gnosis.Mempool.Queues.{
  digest, Has, IsSound, IsSound-store_payload, IsSound-enqueue, Covers, IsSound-discard,
  IsSound-ask, mem-missing_of, IsPayload,
}
use gnosis.Mempool.Payload.{Payload, answered, make_payload}
use gnosis.Crypto.{Digest, PublicKey}
use gnosis.Prelude.Map.{Map, contains_key, mem, lookup, discard_all, mem-take}
use gnosis.Mempool.State.{
  Env, payload, Core, MempoolMessage, M, modify, done, pure, IsHashSet, ◌>>◌, sync, clean, Entry,
  ◌>>=◌, lift,
}
use gnosis.Mempool.Handlers.{
  transmit, process_own_payload, handle_own_payload, handle_others_payload, handle_request,
  make_own, get_payload, verify_payload, clean_up, missing_of, deserialized,
}

module _ (env : Env) (before : Map Digest Entry) where
  abbrev pub Handles : {A : Type 0} → (Core → Type 0) → M A → (A → Core → Type 0) → Type 0
  Handles P m Q = Triple (IsSound env before) P m Q

  -- A predicate that reads the store alone.
  abbrev Stored : (Map Digest Entry → Type 0) → Core → Type 0
  Stored P s = P s.store

  -- Sending changes neither the store nor the queues.
  send :
      (P : Map Digest Entry → Type 0) (sent : Core → List (MempoolMessage × List SocketAddr))
      → Handles (Stored P) (modify (λ s. record s { network_channel = sent s })) (λ _. Stored P)
  send P sent = Triple-modify _ _ (λ s h p. (
    record {
      grows = h.grows;
      keyed = h.keyed;
      in_opt = h.in_opt;
      in_pes = h.in_pes;
      asked = h.asked;
    },
    p,
  ))

  transmit-Handles :
      (m : MempoolMessage) (to : Option PublicKey) (P : Map Digest Entry → Type 0)
      → Handles (Stored P) (transmit env m to) (λ _. Stored P)
  unfolding transmit
  transmit-Handles m none P = send P _
  transmit-Handles m (some to) P = Triple-get ▷ λ s. Triple-lift _ ▷ λ a.
      Triple-weaken (Stored P) (λ _. Stored P) (λ _. Stored P) (λ s p. p.1.1) (λ _ s p. p)
        (send P _)

  process_own_payload-Handles :
      (p : Payload)
      → Handles
          (λ _. Unit)
          (process_own_payload env (digest env before p) p)
          (λ _. Has env before (digest env before p))
  unfolding process_own_payload
  process_own_payload-Handles p = Triple-get ▷ λ s. Triple-lift _ ▷ λ _.
      Triple-modify _ (Has env before (digest env before p))
        (λ s h _. IsSound-store_payload env before p s h)
      ▷ λ _.
          transmit-Handles (payload p) none
            (λ store. contains_key (digest env before p) store ≡ true)

  -- What a handler is: it keeps the invariant.
  abbrev pub Quiet : {A : Type 0} → M A → Type 0
  Quiet m = Handles (λ _. Unit) m (λ _ _. Unit)

  pub handle_own_payload-Handles : (p : Payload) → Quiet (handle_own_payload env p)
  unfolding handle_own_payload
  handle_own_payload-Handles p = Triple-get ▷ λ s. Triple-lift _ ▷ λ _.
      Triple-weaken _ _ _ (λ s _. tt) (λ _ s has. has) (process_own_payload-Handles p) ▷ λ _.
      Triple-modify _ _ (λ s h has. (IsSound-enqueue env before _ s h (p, refl) has, tt))

  pub handle_others_payload-Handles : (p : Payload) → Quiet (handle_others_payload env p)
  unfolding handle_others_payload
  handle_others_payload-Handles p = Triple-get ▷ λ s. Triple-lift _ ▷ λ _. Triple-lift _ ▷ λ _.
      Triple-lift _ ▷ λ _.
      Triple-modify _ (Has env before (digest env before p))
        (λ s h _. IsSound-store_payload env before p s h)
      ▷ λ _. Triple-modify _ _ (λ s h has. (IsSound-enqueue env before _ s h (p, refl) has, tt))

  pub handle_request-Handles :
      (digests : List Digest) (requestor : PublicKey) → Quiet (handle_request env digests requestor)
  unfolding handle_request
  handle_request-Handles [] requestor = Triple-pure _ tt (λ s _ _. tt)
  handle_request-Handles (d ∷ digests) requestor =
      Triple-get ▷ λ s. answer (lookup d s.store) ▷ λ _. handle_request-Handles digests requestor
    where
      answer :
          {P : Core → Type 0} (o : Option Entry)
          → Handles P
              (elim o [
                | none ↦ done
                | some e ↦ do
                  p ← lift (deserialized env e)
                  transmit env (payload p) (some requestor)
              ])
              (λ _ _. Unit)
      answer none = Triple-pure _ tt (λ s _ _. tt)
      answer (some e) = Triple-lift _ ▷ λ p.
          Triple-weaken _ _ _ (λ s _. tt) (λ _ s _. tt)
            (transmit-Handles (payload p) (some requestor) (λ _. Unit))

  -- The digests are stored.
  abbrev pub HasAll : List Digest → Core → Type 0
  HasAll digests s = (d : Digest) → mem d digests ≡ true → Has env before d s

  -- The digests are of payloads, and stored.
  abbrev pub HandsOut : List Digest → Core → Type 0
  HandsOut digests s = (d : Digest) → mem d digests ≡ true → IsPayload env d × Has env before d s

  make_own-Handles : Handles (λ _. Unit) (make_own env) HandsOut
  unfolding make_own mem
  make_own-Handles = Triple-get ▷ λ s.
      Triple-modify _ (λ _. Unit)
        (λ s h _. (
          record {
            grows = h.grows;
            keyed = h.keyed;
            in_opt = h.in_opt;
            in_pes = h.in_pes;
            asked = h.asked;
          },
          tt,
        ))
      ▷ λ _. own (answered (make_payload env.crypto s.payload_maker).1)
    where
      own :
          (o : Option Payload)
          → Handles
              (λ _. Unit)
              (elim o [
                | none ↦ pure []
                | some p ↦ do
                  process_own_payload env (digest env before p) p
                  pure (digest env before p ∷ [])
              ])
              HandsOut
      own none = Triple-pure HandsOut [] (λ s _ _ d wanted. ground arith)
      own (some p) = process_own_payload-Handles p ▷ λ _.
          Triple-pure HandsOut _ (λ s _ has d wanted. elim (Bool-cases (digest env before p == d)) [
            | inl same ↦
                subst (λ k. IsPayload env k × Has env before k s)
                  ((nat_eqb_iff (digest env before p) d).0 same) ((p, refl), has)
            | inr other ↦ ground (arith, other, wanted)
          ])

  module _ (hash_set : IsHashSet env) where
    mem-handed_out :
        (n : ℕ) (d : Digest) (queue : List Digest)
        → mem d (take n (env.iter queue)) ≡ true
        → mem d queue ≡ true
    mem-handed_out n d queue h = sym (hash_set.mem-iter d queue) ∙ mem-take n d (env.iter queue) h

    -- The digests handed out are of payloads, and stored.
    pub get_payload-Handles : (max tag : ℕ) → Handles (λ _. Unit) (get_payload env max tag) HandsOut
    unfolding get_payload discard_all
    get_payload-Handles max tag = Triple-get ▷ λ s.
        Triple-if _ (Triple-weaken _ _ HandsOut (λ _ _. tt) (λ _ _ q. q) make_own-Handles)
          (Triple-if _ (from_opt s) (from_pes s))
      where
        from_opt :
            (s : Core)
            → Handles
                (λ t. (s ≡ t) × Unit)
                (do
                  modify (λ t. record t {
                    opt_queue = discard_all (take (max / 32) (env.iter s.opt_queue)) t.opt_queue;
                  })
                  pure (take (max / 32) (env.iter s.opt_queue)))
                HandsOut
        from_opt s =
            Triple-modify
              (λ t. record t {
                opt_queue = discard_all (take (max / 32) (env.iter s.opt_queue)) t.opt_queue;
              })
              (HandsOut (take (max / 32) (env.iter s.opt_queue)))
              (λ t h p. (
                IsSound-discard env before (take (max / 32) (env.iter s.opt_queue)) [] t h,
                λ d wanted. h.in_opt d (
                    subst (λ u. mem d u.opt_queue ≡ true) p.0
                      (mem-handed_out _ d s.opt_queue wanted)),
              ))
            ▷ λ _. Triple-pure HandsOut _ (λ t _ q. q)

        from_pes :
            (s : Core)
            → Handles
                (λ t. (s ≡ t) × Unit)
                (do
                  modify (λ t. record t {
                    pes_queue = discard_all (take (max / 32) (env.iter s.pes_queue)) t.pes_queue;
                  })
                  pure (take (max / 32) (env.iter s.pes_queue)))
                HandsOut
        from_pes s =
            Triple-modify
              (λ t. record t {
                pes_queue = discard_all (take (max / 32) (env.iter s.pes_queue)) t.pes_queue;
              })
              (HandsOut (take (max / 32) (env.iter s.pes_queue)))
              (λ t h p. (
                IsSound-discard env before [] (take (max / 32) (env.iter s.pes_queue)) t h,
                λ d wanted. h.in_pes d (
                    subst (λ u. mem d u.pes_queue ≡ true) p.0
                      (mem-handed_out _ d s.pes_queue wanted)),
              ))
            ▷ λ _. Triple-pure HandsOut _ (λ t _ q. q)

    -- A block is accepted only if its payload is stored.
    pub verify_payload-Handles :
        (block : Block) (tag : ℕ)
        → Handles
            (λ _. Unit)
            (verify_payload env block tag)
            (λ ok s. ok ≡ true → HasAll block.payload s)
    unfolding verify_payload Covers mem
    verify_payload-Handles block tag = Triple-get ▷ λ s.
        elim (Bool-cases (is_empty (missing_of env block.payload s.store))) [
          | inl complete ↦ rw complete (
              Triple-pure (λ ok t. ok ≡ true → HasAll block.payload t) true
                (λ t _ p _ d wanted. stored s t p.0 complete d wanted))
          | inr partial ↦ rw partial (
              Triple-modify _ (λ _. Unit)
                (λ t h p. (IsSound-ask env before _ t h (covers s t p.0), tt))
              ▷ λ _. Triple-pure _ false (λ _ _ _ h. ground arith))
        ]
      where
        covers :
            (s t : Core)
            → s ≡ t
            → Covers t.store (sync (missing_of env block.payload s.store) block tag)
        covers s t same d wanted =
            subst
              (λ u.
                (mem d (missing_of env block.payload s.store) ≡ true)
                ⊎ (contains_key d u.store ≡ true))
              same (mem-missing_of env before d block.payload s.store wanted)

        stored :
            (s t : Core)
            → s ≡ t
            → is_empty (missing_of env block.payload s.store) ≡ true
            → HasAll block.payload t
        stored s t same complete d wanted =
            elim (mem-missing_of env before d block.payload s.store wanted) [
              | inl missing ↦ ground (arith, empty _ complete missing)
              | inr here ↦ subst (Has env before d) same here
            ]
          where
            empty : (xs : List Digest) → is_empty xs ≡ true → mem d xs ≡ true → ⊥
            empty [] e h = ground arith
            empty (x ∷ xs) e h = ground arith

    pub clean_up-Handles : (digests : List Digest) (round : ℕ) → Quiet (clean_up env digests round)
    unfolding clean_up Covers
    clean_up-Handles digests round =
        Triple-modify _ (λ _. Unit)
          (λ s h _. (
            IsSound-discard env before digests digests _
                (IsSound-ask env before (clean round) s h tt),
            tt,
          ))
