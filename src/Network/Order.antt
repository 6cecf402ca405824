-- ===== src/Network/Order.antt =====
-- What NetSender hands to the workers of an address (network/src/lib.rs).
use gnosis.Prelude.Map.{Map, mem, insert, get_or, lookup, lookup-insert, get_or-insert}
use gnosis.Prelude.{
  List, ◌∷◌, Bool, false, ◌++◌, [], true, ◌≡◌, if◌then◌else◌, ◌==◌, ◌&&◌, Bool-cases, inl, inr,
  is_empty, Option-cases, nat_eqb_iff, refl, none, ◌∙◌, some, ap, subst, sym, arith,
}
use gnosis.Config.{SocketAddr}
use gnosis.Prelude.{nat_eq}
use mathlib.Core.List.{append_assoc, append-nil}
use gnosis.Network.{
  Bytes, Sender, Event, net_message, worker_writes, worker_returns, handed, handed_to, send_to,
  send_all, on_event, run, on_worker, write_next, spawn_worker, Worker,
}

-- The message, once for each time that the address stands among the receivers.
unfoldable pub copies : SocketAddr → Bytes → List SocketAddr → List Bytes
copies a bytes [] = []
copies a bytes (x ∷ addresses) = (if x == a then bytes ∷ [] else []) ++ copies a bytes addresses

-- What was to be sent to an address.
unfoldable pub requested : SocketAddr → List Event → List Bytes
requested a [] = []
requested a (net_message bytes addresses refused ∷ events) =
    copies a bytes addresses ++ requested a events
requested a (_ ∷ events) = requested a events

-- No worker returns before it is handed its first message.
unfoldable pub all_accept : List Event → Bool
all_accept [] = true
all_accept (net_message bytes addresses refused ∷ events) = is_empty refused && all_accept events
all_accept (_ ∷ events) = all_accept events

-- The worker of an address is replaced in the map.
handed-insert :
    (a x : SocketAddr) (w : Worker) (senders : Map SocketAddr Worker)
    (replaced : Map SocketAddr (List Bytes))
    → handed a (record { senders = insert x w senders; replaced = replaced })
      ≡ get_or a [] replaced
        ++ (if x == a
            then handed_to w
            else elim (lookup a senders) [ none ↦ [] | some v ↦ handed_to v ])
handed-insert a x w senders replaced = elim (Bool-cases (x == a)) [
  | inl same ↦ rw (lookup-insert x a w senders, same) refl
  | inr other ↦ rw (lookup-insert x a w senders, other) refl
]

spawn_worker-handed :
    (a x : SocketAddr) (bytes : Bytes) (st : Sender)
    → handed a (spawn_worker false x bytes st) ≡ handed a st ++ (if x == a then bytes ∷ [] else [])
unfolding spawn_worker
spawn_worker-handed a x bytes st =
    handed-insert a x (record { written = []; queue = bytes ∷ []; alive = true }) st.senders
      (insert x (handed x st) st.replaced)
    ∙ elim (Bool-cases (x == a)) [
      | inl same ↦
          rw (get_or-insert x a [] (handed x st) st.replaced, same)
            (ap (λ k. handed k st ++ bytes ∷ []) ((nat_eqb_iff x a).0 same))
      | inr other ↦
          rw (get_or-insert x a [] (handed x st) st.replaced, other)
            (sym (append-nil (handed a st)))
    ]

send_to-handed :
    (a x : SocketAddr) (bytes : Bytes) (st : Sender)
    → handed a (send_to [] bytes x st) ≡ handed a st ++ (if x == a then bytes ∷ [] else [])
unfolding send_to mem
send_to-handed a x bytes st = elim (Option-cases (lookup x st.senders)) [
  | inl absent ↦ rw (send_to, absent) (spawn_worker-handed a x bytes st)
  | inr (w, found) ↦ elim (Bool-cases w.alive) [
    | inl alive ↦
        let pushed : Worker = record w { queue = w.queue ++ bytes ∷ [] } in
        let step : send_to [] bytes x st ≡ record st { senders = insert x pushed st.senders } =
          rw (send_to, found, alive) refl in
        ap (handed a) step
        ∙ handed-insert a x pushed st.senders st.replaced
        ∙ elim (Bool-cases (x == a)) [
          | inl same ↦
              let here : lookup a st.senders ≡ some w =
                subst (λ k. lookup k st.senders ≡ some w) ((nat_eqb_iff x a).0 same) found in
              rw (same, here)
                (ap (λ q. get_or a [] st.replaced ++ q)
                    (sym (append_assoc w.written w.queue (bytes ∷ [])))
                  ∙ sym (append_assoc (get_or a [] st.replaced) (handed_to w) (bytes ∷ [])))
          | inr other ↦ rw other (sym (append-nil (handed a st)))
        ]
    | inr over ↦ rw (send_to, found, over) (spawn_worker-handed a x bytes st)
  ]
]

send_all-handed :
    (a : SocketAddr) (bytes : Bytes) (addresses : List SocketAddr) (st : Sender)
    → handed a (send_all [] bytes addresses st) ≡ handed a st ++ copies a bytes addresses
unfolding send_all copies
send_all-handed a bytes [] st = sym (append-nil (handed a st))
send_all-handed a bytes (x ∷ addresses) st =
    send_all-handed a bytes addresses (send_to [] bytes x st)
    ∙ ap (λ l. l ++ copies a bytes addresses) (send_to-handed a x bytes st)
    ∙ append_assoc (handed a st) (if x == a then bytes ∷ [] else []) (copies a bytes addresses)

-- A change of a worker that keeps what it was handed.
on_worker-handed :
    (a x : SocketAddr) (f : Worker → Worker) (st : Sender)
    → ((w : Worker) → handed_to (f w) ≡ handed_to w)
    → handed a (on_worker f x st) ≡ handed a st
unfolding on_worker
on_worker-handed a x f st keeps = elim (Option-cases (lookup x st.senders)) [
  | inl absent ↦ rw (on_worker, absent) refl
  | inr (w, found) ↦
      let step : on_worker f x st ≡ record st { senders = insert x (f w) st.senders } =
        rw (on_worker, found) refl in
      ap (handed a) step
      ∙ handed-insert a x (f w) st.senders st.replaced
      ∙ elim (Bool-cases (x == a)) [
        | inl same ↦
            let here : lookup a st.senders ≡ some w =
              subst (λ k. lookup k st.senders ≡ some w) ((nat_eqb_iff x a).0 same) found in
            rw (same, here) (ap (λ q. get_or a [] st.replaced ++ q) (keeps w))
        | inr other ↦ rw other refl
      ]
]

write_next-handed_to : (w : Worker) → handed_to (write_next w) ≡ handed_to w
unfolding write_next
write_next-handed_to w = written_on w.written w.queue w.alive
  where
    written_on :
        (written queue : List Bytes) (alive : Bool)
        → handed_to (write_next (record { written = written; queue = queue; alive = alive }))
          ≡ written ++ queue
    written_on written queue false = refl
    written_on written [] true = refl
    written_on written (x ∷ queue) true = append_assoc written (x ∷ []) queue

-- Where no new worker returns before it is handed its first message, the workers of an address are
-- handed, one after the other, just the messages that were to be sent to it, in their order, each
-- as often as the address stands among its receivers; whatever the workers write meanwhile, and
-- whenever one returns. What a worker was handed is what it wrote and, after that, what waits.
pub run-handed :
    (a : SocketAddr) (events : List Event) (st : Sender)
    → all_accept events ≡ true
    → handed a (run events st) ≡ handed a st ++ requested a events
unfolding run on_event requested all_accept
run-handed a [] st h = sym (append-nil (handed a st))
run-handed a (net_message bytes addresses [] ∷ events) st h =
    run-handed a events (send_all [] bytes addresses st) h
    ∙ ap (λ l. l ++ requested a events) (send_all-handed a bytes addresses st)
    ∙ append_assoc (handed a st) (copies a bytes addresses) (requested a events)
run-handed a (net_message bytes addresses (x ∷ refused) ∷ events) st h = ground (arith, h)
run-handed a (worker_writes x ∷ events) st h =
    run-handed a events (on_worker write_next x st) h
    ∙ ap (λ l. l ++ requested a events) (on_worker-handed a x write_next st write_next-handed_to)
run-handed a (worker_returns x ∷ events) st h =
    run-handed a events (on_worker (λ w. record w { alive = false }) x st) h
    ∙ ap (λ l. l ++ requested a events)
        (on_worker-handed a x (λ w. record w { alive = false }) st (λ w. refl))
