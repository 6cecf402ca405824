-- ===== src/Filter/Order.antt =====
-- What the filter passes on (consensus/src/filter.rs).
use gnosis.Error.{ok}
use gnosis.Config.{Parameters}
use gnosis.Network.{Bytes}
use gnosis.Messages.{ConsensusMessage}
use gnosis.Filter.{
  remove, Event, core_recv, core_smvba_recv, NetMessage, encoded, completed, delay, Filter,
  on_event, pending_next, pending_smvba_next, is_hs_propose, run, new_filter,
}
use gnosis.Prelude.{
  List, ℕ, Option, ◌∷◌, ◌≡◌, some, [], subst, map, ◌++◌, ◌∙◌, ap, sym, suc, true, Option-cases, ◌≤◌,
  inl, Bool, inr, zero, ltb, false, arith, if◌then◌else◌, Bool-cases, refl, if_elim,
}
use mathlib.Core.List.{Perm, append_assoc, append-nil, map-append}
use mathlib.Core.List.Perm
use mathlib.Core.Option.{some-injective, none-ne-some}
use gnosis.Core.State.{FilterInput}

-- What the core sent on each of its channels.
unfoldable pub received : List Event → List FilterInput
received [] = []
received (core_recv input ∷ events) = input ∷ received events
received (_ ∷ events) = received events

unfoldable pub received_smvba : List Event → List FilterInput
received_smvba [] = []
received_smvba (core_smvba_recv input ∷ events) = input ∷ received_smvba events
received_smvba (_ ∷ events) = received_smvba events

received-cons :
    (e : Event) (events : List Event)
    → (received (e ∷ events) ≡ received (e ∷ []) ++ received events)
      × (received_smvba (e ∷ events) ≡ received_smvba (e ∷ []) ++ received_smvba events)
unfolding received received_smvba
received-cons (core_recv input) events = (refl, refl)
received-cons (core_smvba_recv input) events = (refl, refl)
received-cons (pending_next place chosen) events = (refl, refl)
received-cons (pending_smvba_next place chosen) events = (refl, refl)

-- A list mapped and appended in two parts.
regroup :
    {A B : Type 0} (f : A → B) (base : List B) (all first later : List A)
    → all ≡ first ++ later
    → (base ++ map f first) ++ map f later ≡ base ++ map f all
regroup f base all first later e =
    append_assoc base (map f first) (map f later)
    ∙ ap (λ l. base ++ l) (sym (map-append f first later) ∙ ap (map f) (sym e))

remove-Perm :
    {A : Type 0} (i : ℕ) (xs : List A) {x : A} {rest : List A}
    → remove i xs ≡ some (x, rest)
    → Perm (x ∷ rest) xs
unfolding remove
remove-Perm i [] e = cc
remove-Perm zero (y ∷ ys) {x} {rest} e =
    subst (λ p. Perm (p.0 ∷ p.1) (y ∷ ys)) (some-injective _ _ e) (Perm.refl (y ∷ ys))
remove-Perm (suc i) (y ∷ ys) {x} {rest} e = elim (Option-cases (remove i ys)) [
  | inl nothing ↦ absurd (none-ne-some _ (rw nothing at e))
  | inr (r, found) ↦
      subst (λ p. Perm (p.0 ∷ p.1) (y ∷ ys)) (some-injective _ _ (rw found at e))
        (Perm.trans (Perm.swap y r.0 r.1) (Perm.cons y (remove-Perm i ys found)))
]

module _ (serialize : ConsensusMessage → Option Bytes) (parameters : Parameters) where
  -- What was passed on of a channel, and what is still delayed.
  abbrev known : List NetMessage → List FilterInput → List (Option NetMessage)
  known passed pending = map some passed ++ map (encoded serialize parameters) pending

  recv-Perm :
      (passed : List NetMessage) (pending : List FilterInput) (input : FilterInput)
      (base : List (Option NetMessage))
      → Perm (known passed pending) base
      → Perm
          (known passed (pending ++ input ∷ []))
          (base ++ encoded serialize parameters input ∷ [])
  recv-Perm passed pending input base p =
      subst (λ l. Perm l (base ++ encoded serialize parameters input ∷ []))
        (append_assoc (map some passed) _ _
          ∙ ap (λ l. map some passed ++ l)
              (sym (map-append (encoded serialize parameters) pending (input ∷ []))))
        (Perm.append_right (encoded serialize parameters input ∷ []) p)

  next-Perm :
      (passed : List NetMessage) (pending rest : List FilterInput) (input : FilterInput) (place : ℕ)
      (message : NetMessage) (base : List (Option NetMessage))
      → remove place pending ≡ some (input, rest)
      → encoded serialize parameters input ≡ some message
      → Perm (known passed pending) base
      → Perm (known (passed ++ message ∷ []) rest) base
  next-Perm passed pending rest input place message base found is p =
      subst (λ l. Perm l base)
        (ap (λ m. map some passed ++ m ∷ map (encoded serialize parameters) rest) is
          ∙ sym (append_assoc (map some passed) (some message ∷ []) _)
          ∙ ap (λ l. l ++ map (encoded serialize parameters) rest)
              (sym (map-append some passed (message ∷ []))))
        (Perm.trans
          (Perm.append_left (map some passed)
            (Perm.map (encoded serialize parameters) (remove-Perm place pending found)))
          p)

  -- Nothing that the filter does makes it panic.
  IsSafe : Type 0
  IsSafe =
      (parameters.random_ddos ≡ true → parameters.random_ddos_chance ≤ 100)
      × ((m : ConsensusMessage) → (bytes : Bytes) × (serialize m ≡ some bytes))

  delay-returns :
      (input : FilterInput) (chosen : Bool)
      → IsSafe
      → (ms : ℕ) × (delay serialize parameters input chosen ≡ ok ms)
  unfolding IsSafe delay
  delay-returns input chosen (chance, total) = elim (Bool-cases (is_hs_propose input.0)) [
    | inl proposal ↦ elim (Bool-cases parameters.random_ddos) [
      | inl random ↦ elim (Bool-cases chosen) [
        | inl drawn ↦
            (parameters.network_delay, rw (proposal, random, small (chance random), drawn) refl)
        | inr not_drawn ↦ (
          if parameters.ddos then parameters.network_delay else 0,
          rw (proposal, random, small (chance random), not_drawn) (if_ok parameters.ddos _ _),
        )
      ]
      | inr steady ↦ (
        if parameters.ddos then parameters.network_delay else 0,
        rw (proposal, steady) (if_ok parameters.ddos _ _),
      )
    ]
    | inr other ↦ (0, rw other refl)
  ]
    where
      small : parameters.random_ddos_chance ≤ 100 → ltb 100 parameters.random_ddos_chance ≡ false
      small h = ground (arith, h)

      if_ok : (b : Bool) (x y : ℕ) → (if b then ok x else ok y) ≡ ok (if b then x else y)
      if_ok true x y = refl
      if_ok false x y = refl

  completed-encoded :
      (input : FilterInput) (chosen : Bool)
      → IsSafe
      → (message : NetMessage) × (completed serialize parameters input chosen ≡ some message)
        × (encoded serialize parameters input ≡ some message)
  unfolding IsSafe completed encoded
  completed-encoded input chosen safe =
      let (bytes, total) = safe.1 input.0 in
      let (ms, returns) = delay-returns input chosen safe in
      (
        record { bytes = bytes; addresses = input.1 },
        rw (returns, total, completed, encoded) refl,
        rw (total, encoded) refl,
      )

  -- The task runs, and each channel passed on or still delays what it received.
  record Keeps (base base_smvba : List (Option NetMessage)) (st : Filter) : Type 0 where
    pub runs : st.running ≡ true
    pub core : Perm (known st.network st.pending) base
    pub smvba : Perm (known st.net_smvba st.pending_smvba) base_smvba

  on_event-Keeps :
      (e : Event) (base base_smvba : List (Option NetMessage)) (st : Filter)
      → IsSafe
      → Keeps base base_smvba st
      → Keeps
          (base ++ map (encoded serialize parameters) (received (e ∷ [])))
          (base_smvba ++ map (encoded serialize parameters) (received_smvba (e ∷ [])))
          (on_event serialize parameters e st)
  unfolding on_event received received_smvba
  on_event-Keeps (core_recv input) base base_smvba st safe k = record {
    runs = k.runs;
    core = recv-Perm st.network st.pending input base k.core;
    smvba = rw (append-nil base_smvba) k.smvba;
  }
  on_event-Keeps (core_smvba_recv input) base base_smvba st safe k = record {
    runs = k.runs;
    core = rw (append-nil base) k.core;
    smvba = recv-Perm st.net_smvba st.pending_smvba input base_smvba k.smvba;
  }
  on_event-Keeps (pending_next place chosen) base base_smvba st safe k =
      rw (append-nil base, append-nil base_smvba)
        (elim (Option-cases (remove place st.pending)) [
          | inl nothing ↦ rw (nothing, on_event) k
          | inr (r, found) ↦
              let (message, done, is) = completed-encoded r.0 chosen safe in
              rw (found, done, on_event)
                (record {
                  runs = k.runs;
                  core = next-Perm st.network st.pending r.1 r.0 place message base found is k.core;
                  smvba = k.smvba;
                })
        ])
  on_event-Keeps (pending_smvba_next place chosen) base base_smvba st safe k =
      rw (append-nil base, append-nil base_smvba)
        (elim (Option-cases (remove place st.pending_smvba)) [
          | inl nothing ↦ rw (nothing, on_event) k
          | inr (r, found) ↦
              let (message, done, is) = completed-encoded r.0 chosen safe in
              rw (found, done, on_event)
                (record {
                  runs = k.runs;
                  core = k.core;
                  smvba =
                      next-Perm st.net_smvba st.pending_smvba r.1 r.0 place message base_smvba found
                        is k.smvba;
                })
        ])

  run-Keeps :
      (events : List Event) (base base_smvba : List (Option NetMessage)) (st : Filter)
      → IsSafe
      → Keeps base base_smvba st
      → Keeps
          (base ++ map (encoded serialize parameters) (received events))
          (base_smvba ++ map (encoded serialize parameters) (received_smvba events))
          (run serialize parameters events st)
  unfolding run received received_smvba
  run-Keeps [] base base_smvba st safe k = rw (append-nil base, append-nil base_smvba) k
  run-Keeps (e ∷ events) base base_smvba st safe k =
      let after = encoded serialize parameters in
      let parts = received-cons e events in
      let rest =
        run-Keeps events (base ++ map after (received (e ∷ [])))
          (base_smvba ++ map after (received_smvba (e ∷ []))) (on_event serialize parameters e st)
          safe (on_event-Keeps e base base_smvba st safe k) in
      if_elim
        (Keeps (base ++ map after (received (e ∷ events)))
          (base_smvba ++ map after (received_smvba (e ∷ events))))
        st.running
        (λ runs. record {
          runs = rest.runs;
          core = subst (Perm _) (regroup after base _ _ _ parts.0) rest.core;
          smvba = subst (Perm _) (regroup after base_smvba _ _ _ parts.1) rest.smvba;
        })
        (λ ends. absurd (ground (arith, ends, k.runs)))

-- Nothing panics while the filter runs from the start, if the messages can be serialized and the
-- chance of a random delay is at most 100 per cent; and on each of its two channels, what it passed to the network
-- and what it still delays is, in some order, just what the core sent there: nothing is lost,
-- doubled or put on the other channel.
pub run-Perm :
    (serialize : ConsensusMessage → Option Bytes) (parameters : Parameters) (events : List Event)
    → ((m : ConsensusMessage) → (bytes : Bytes) × (serialize m ≡ some bytes))
    → (parameters.random_ddos ≡ true → parameters.random_ddos_chance ≤ 100)
    → let st = run serialize parameters events new_filter in
      let after = encoded serialize parameters in
      (st.running ≡ true)
      × Perm (map some st.network ++ map after st.pending) (map after (received events))
      × Perm
          (map some st.net_smvba ++ map after st.pending_smvba)
          (map after (received_smvba events))
unfolding IsSafe
run-Perm serialize parameters events total chance =
    let k =
      run-Keeps serialize parameters events [] [] new_filter (chance, total)
        (record { runs = refl; core = Perm.nil; smvba = Perm.nil }) in
    (k.runs, k.core, k.smvba)
