-- ===== src/Network/Delivered.antt =====
-- What the workers of a receiver deliver (network/src/lib.rs).
use gnosis.Prelude.{
  ℕ, List, Option, ◌∷◌, Bool, ◌++◌, none, ◌≡◌, ◌<◌, length, if◌then◌else◌, ◌==◌, [], true, arith,
  suc, zero, some, false, ap, refl, nat_eq, length-append, ◌∙◌, if_elim, Option-cases, inl, inr,
  Bool-cases, sym, nat_eqb_iff, subst,
}
use mathlib.Core.List.{append-nil, append_assoc}
use mathlib.Core.Bool.{true≢false}
use gnosis.Network.{Bytes}
use gnosis.Network.Receiver.{
  decoded, running, stop, NetEvent, frame, closed, Receiver, on_frame, receive, receive_all,
  accepted, accept_failed,
}

-- What one connection delivered.
unfoldable pub delivered_on : {Message : Type 0} → ℕ → List (ℕ × Message) → List Message
delivered_on i [] = []
delivered_on i (d ∷ ds) = let rest = delivered_on i ds in if d.0 == i then d.1 ∷ rest else rest

-- What comes on a connection, its end being no frame.
unfoldable pub arrivals : ℕ → List NetEvent → List (Option Bytes)
arrivals i [] = []
arrivals i (frame j f ∷ events) = let rest = arrivals i events in if j == i then f ∷ rest else rest
arrivals i (closed j ∷ events) =
    let rest = arrivals i events in if j == i then none ∷ rest else rest
arrivals i (_ ∷ events) = arrivals i events

-- The messages up to the first frame that is none.
unfoldable pub readable :
    {Message : Type 0} → (Bytes → Option Message) → List (Option Bytes) → List Message
unfolding decoded
readable deserialize [] = []
readable deserialize (f ∷ frames) =
    let rest = readable deserialize frames in
    elim (decoded deserialize f) [ none ↦ [] | some m ↦ m ∷ rest ]

running-lt : (i : ℕ) (ws : List Bool) → running i ws ≡ true → i < length ws
unfolding running
running-lt i [] h = cc
running-lt zero (w ∷ ws) h = omega arith
running-lt (suc i) (w ∷ ws) h = omega (arith, running-lt i ws h)

running-append : (i : ℕ) (ws vs : List Bool) → i < length ws → running i (ws ++ vs) ≡ running i ws
unfolding running
running-append i [] vs h = absurd (omega (arith, h))
running-append zero (w ∷ ws) vs h = refl
running-append (suc i) (w ∷ ws) vs h = running-append i ws vs (omega (arith, h))

running-stop :
    (i j : ℕ) (ws : List Bool) → running i (stop j ws) ≡ (if j == i then false else running i ws)
unfolding running stop
running-stop i j [] = ground arith
running-stop zero zero (w ∷ ws) = ground arith
running-stop zero (suc j) (w ∷ ws) = ground arith
running-stop (suc i) zero (w ∷ ws) = ground arith
running-stop (suc i) (suc j) (w ∷ ws) = ground (arith, running-stop i j ws)

length-stop : (j : ℕ) (ws : List Bool) → length (stop j ws) ≡ length ws
unfolding stop
length-stop j [] = refl
length-stop zero (w ∷ ws) = refl
length-stop (suc j) (w ∷ ws) = ap suc (length-stop j ws)

module _ {Message : Type 0} where
  delivered_on-append :
      (i : ℕ) (ds es : List (ℕ × Message))
      → delivered_on i (ds ++ es) ≡ delivered_on i ds ++ delivered_on i es
  unfolding delivered_on
  delivered_on-append i [] es = refl
  delivered_on-append i (d ∷ ds) es = ground (arith, delivered_on-append i ds es)

module _ {Message : Type 0} (deserialize : Bytes → Option Message) where
  -- A worker that returned delivers nothing more, and its number is not used again.
  record Stopped (i : ℕ) (ds : List Message) (st : Receiver Message) : Type 0 where
    pub known : i < length st.workers
    pub stopped : running i st.workers ≡ false
    pub kept : delivered_on i st.delivered ≡ ds

  stop-Stopped :
      (i : ℕ) (st : Receiver Message)
      → running i st.workers ≡ true
      → Stopped i (delivered_on i st.delivered) (record st { workers = stop i st.workers })
  stop-Stopped i st h = record {
    known = omega (arith, running-lt i st.workers h, length-stop i st.workers);
    stopped = running-stop i i st.workers ∙ rw ((nat_eqb_iff i i).1 refl) refl;
    kept = refl;
  }

  receive-Stopped :
      (i : ℕ) (ds : List Message) (e : NetEvent) (st : Receiver Message)
      → Stopped i ds st
      → Stopped i ds (receive deserialize e st)
  unfolding receive on_frame delivered_on
  receive-Stopped i ds accepted st s = record {
    known = omega (arith, s.known, length-append st.workers (true ∷ []));
    stopped = running-append i st.workers (true ∷ []) s.known ∙ s.stopped;
    kept = s.kept;
  }
  receive-Stopped i ds accept_failed st s = s
  receive-Stopped i ds (frame j f) st s =
      if_elim (Stopped i ds) (running j st.workers)
        (λ runs. elim (Option-cases (decoded deserialize f)) [
          | inl unread ↦
              rw (unread, on_frame)
                (record {
                  known = omega (arith, s.known, length-stop j st.workers);
                  stopped = rw (running-stop i j st.workers) (ground (arith, s.stopped));
                  kept = s.kept;
                })
          | inr (m, read) ↦
              rw (read, on_frame)
                (record {
                  known = s.known;
                  stopped = s.stopped;
                  kept =
                      delivered_on-append i st.delivered ((j, m) ∷ [])
                      ∙ rw (other_worker j runs) (append-nil _ ∙ s.kept);
                })
        ])
        (λ stopped. s)
    where
      other_worker : (j : ℕ) → running j st.workers ≡ true → (j == i) ≡ false
      other_worker j runs = elim (Bool-cases (j == i)) [
        | inl same ↦ absurd (
            true≢false
              (sym runs ∙ ap (λ k. running k st.workers) ((nat_eqb_iff j i).0 same) ∙ s.stopped))
        | inr other ↦ other
      ]
  receive-Stopped i ds (closed j) st s = record {
    known = omega (arith, s.known, length-stop j st.workers);
    stopped = rw (running-stop i j st.workers) (ground (arith, s.stopped));
    kept = s.kept;
  }

  receive_all-Stopped :
      (i : ℕ) (ds : List Message) (events : List NetEvent) (st : Receiver Message)
      → Stopped i ds st
      → delivered_on i (receive_all deserialize events st).delivered ≡ ds
  unfolding receive_all
  receive_all-Stopped i ds [] st s = s.kept
  receive_all-Stopped i ds (e ∷ events) st s =
      receive_all-Stopped i ds events (receive deserialize e st) (receive-Stopped i ds e st s)

  delivered_on-one :
      (i j : ℕ) (m : Message) (ds : List (ℕ × Message))
      → (j == i) ≡ false
      → delivered_on i (ds ++ (j, m) ∷ []) ≡ delivered_on i ds
  unfolding delivered_on
  delivered_on-one i j m ds other = delivered_on-append i ds ((j, m) ∷ []) ∙ rw other (append-nil _)

  -- A frame of another connection.
  receive-other :
      (i j : ℕ) (f : Option Bytes) (st : Receiver Message)
      → (j == i) ≡ false
      → (running i (receive deserialize (frame j f) st).workers ≡ running i st.workers)
        × (delivered_on i (receive deserialize (frame j f) st).delivered
            ≡ delivered_on i st.delivered)
  unfolding receive on_frame
  receive-other i j f st other =
      if_elim
        (λ (s : Receiver Message).
          (running i s.workers ≡ running i st.workers)
          × (delivered_on i s.delivered ≡ delivered_on i st.delivered))
        (running j st.workers)
        (λ runs. elim (Option-cases (decoded deserialize f)) [
          | inl unread ↦ rw (unread, on_frame) (running-stop i j st.workers ∙ rw other refl, refl)
          | inr (m, read) ↦ rw (read, on_frame) (refl, delivered_on-one i j m st.delivered other)
        ])
        (λ stopped. (refl, refl))

  -- A frame of the connection itself.
  receive-own :
      (i : ℕ) (f : Option Bytes) (events : List NetEvent) (st : Receiver Message)
      → running i st.workers ≡ true
      → ((s : Receiver Message)
          → running i s.workers ≡ true
          → delivered_on i (receive_all deserialize events s).delivered
            ≡ delivered_on i s.delivered ++ readable deserialize (arrivals i events))
      → delivered_on i
          (receive_all deserialize events (receive deserialize (frame i f) st)).delivered
        ≡ delivered_on i st.delivered ++ readable deserialize (f ∷ arrivals i events)
  unfolding receive on_frame readable delivered_on
  receive-own i f events st h later = elim (Option-cases (decoded deserialize f)) [
    | inl unread ↦
        rw (h, unread, on_frame, readable)
          (receive_all-Stopped i (delivered_on i st.delivered) events
              (record st { workers = stop i st.workers }) (stop-Stopped i st h)
            ∙ sym (append-nil _))
    | inr (m, read) ↦
        rw (h, read, on_frame, readable)
          (later (record st { delivered = st.delivered ++ (i, m) ∷ [] }) h
            ∙ ap (λ l. l ++ readable deserialize (arrivals i events))
                (delivered_on-append i st.delivered ((i, m) ∷ [])
                  ∙ rw ((nat_eqb_iff i i).1 refl) refl)
            ∙ append_assoc (delivered_on i st.delivered) (m ∷ []) _)
  ]

  -- Whatever other connections do, and however they are accepted, a connection that is open
  -- delivers just the messages that its frames stand for, in their order, up to the first that
  -- cannot be read or its end.
  pub receive_all-readable :
      (i : ℕ) (events : List NetEvent) (st : Receiver Message)
      → running i st.workers ≡ true
      → delivered_on i (receive_all deserialize events st).delivered
        ≡ delivered_on i st.delivered ++ readable deserialize (arrivals i events)
  unfolding receive_all receive on_frame arrivals readable
  receive_all-readable i [] st h = sym (append-nil _)
  receive_all-readable i (accepted ∷ events) st h =
      receive_all-readable i events _
        (running-append i st.workers (true ∷ []) (running-lt i st.workers h) ∙ h)
  receive_all-readable i (accept_failed ∷ events) st h = receive_all-readable i events st h
  receive_all-readable i (frame j f ∷ events) st h = elim (Bool-cases (j == i)) [
    | inl same ↦ rw same (
        subst
          (λ k.
            delivered_on i
              (receive_all deserialize events (receive deserialize (frame k f) st)).delivered
            ≡ delivered_on i st.delivered ++ readable deserialize (f ∷ arrivals i events))
          (sym ((nat_eqb_iff j i).0 same))
          (receive-own i f events st h (receive_all-readable i events)))
    | inr other ↦ rw other (
        let (runs, unchanged) = receive-other i j f st other in
        receive_all-readable i events (receive deserialize (frame j f) st) (runs ∙ h)
        ∙ ap (λ l. l ++ readable deserialize (arrivals i events)) unchanged)
  ]
  receive_all-readable i (closed j ∷ events) st h = elim (Bool-cases (j == i)) [
    | inl same ↦ rw same (
        subst
          (λ k.
            delivered_on i
              (receive_all deserialize events (record st { workers = stop k st.workers })).delivered
            ≡ delivered_on i st.delivered ++ [])
          (sym ((nat_eqb_iff j i).0 same))
          (receive_all-Stopped i (delivered_on i st.delivered) events _ (stop-Stopped i st h)
            ∙ sym (append-nil _)))
    | inr other ↦ rw other (
        receive_all-readable i events (record st { workers = stop j st.workers })
          (running-stop i j st.workers ∙ rw other h))
  ]
