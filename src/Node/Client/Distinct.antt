-- ===== src/Node/Client/Distinct.antt =====
-- The loops of the client (node/src/client.rs).
use gnosis.Network.{Bytes}
use gnosis.Prelude.{
  ℕ, Bool, ◌≤◌, suc, ◌≡◌, ◌%◌, true, length, ◌<◌, ◌+◌, arith, Bool-cases, ◌*◌, ◌∙◌, inl, ◌==◌, ◌/◌,
  nat_eqb_iff, subst, if_elim, zero, inr, All, [], refl, ltb, false, nat_eq, ap,
}
use gnosis.Node.Client.{
  send, transmit, submit, submit_all, main_loop, burst, Sending, BytesMut, Client, IsBytesMut,
  sending,
}
use gnosis.Node.Client.Invariant.{
  Setup, IsOld, AllDistinct, Inv, Inv-mono, tx, sample-Inv, standard-Inv, All-map, length-tx,
}
use gnosis.Prelude.Words.{u64_mod, add64}

module _ (setup : Setup) where
  open setup use {bytes_mut, accepted, client}

  abbrev per_tick : ℕ
  per_tick = burst bytes_mut accepted client

  -- How the loops leave the client: what was sent, and, while it runs, how much.
  record After (r c attempts total counter : ℕ) (st : Sending) : Type 0 where
    k : ℕ
    within : k ≤ attempts
    inv : Inv setup r c k st
    same_counter : st.counter ≡ counter
    sent_each : st.running ≡ true → length st.sent ≡ total

  transmit-After :
      (r c k : ℕ) (t : Bytes) (st : Sending)
      → Inv setup r c k (transmit bytes_mut accepted client t st)
      → After r c k (suc (length st.sent)) st.counter (transmit bytes_mut accepted client t st)
  unfolding transmit
  transmit-After r c k t st i = record {
    k = k;
    within = omega arith;
    inv = i;
    same_counter = ground arith;
    sent_each = λ h. ground (arith, h);
  }

  After-weaken :
      {r c attempts attempts' total total' counter counter' : ℕ} {st : Sending}
      → After r c attempts total counter st
      → attempts ≤ attempts'
      → (st.running ≡ true → total ≡ total')
      → counter ≡ counter'
      → After r c attempts' total' counter' st
  After-weaken a le same same_counter = record {
    k = a.k;
    within = omega (arith, a.within, le);
    inv = a.inv;
    same_counter = a.same_counter ∙ same_counter;
    sent_each = λ h. a.sent_each h ∙ same h;
  }

  submit-After :
      (r c k x : ℕ) (st : Sending)
      → Inv setup r c k st
      → (x ≤ st.counter % per_tick → c ≤ st.counter)
      → c ≤ suc st.counter
      → st.counter < u64_mod
      → suc k < u64_mod
      → (d : ℕ) × (suc x ≤ st.counter % per_tick → d ≤ st.counter)
        × (d ≤ suc st.counter)
        × After r d
            (suc k)
            (suc (length st.sent))
            st.counter
            (submit bytes_mut accepted client x st)
  unfolding submit
  submit-After r c k x st i early le h hk = elim (Bool-cases (x == st.counter % per_tick)) [
    | inl now ↦ rw now (
        let here : x ≡ st.counter % per_tick = (nat_eqb_iff x _).0 now in
        let a =
          transmit-After r (suc st.counter) k (tx setup 0 st.counter) st
            (sample-Inv setup r c st.counter k st i (early (omega arith)) h) in
        (
          suc st.counter,
          λ later. absurd (omega arith),
          omega arith,
          After-weaken a (omega arith) (λ _. refl) refl,
        ))
    | inr later ↦ rw later (
      c,
      λ soon. early (omega arith),
      le,
      transmit-After r c (suc k) _ _ (standard-Inv setup r c k st i (omega arith) hk),
    )
  ]

  submit_all-After :
      (r c k left x : ℕ) (st : Sending)
      → Inv setup r c k st
      → (x ≤ st.counter % per_tick → c ≤ st.counter)
      → c ≤ suc st.counter
      → st.counter < u64_mod
      → k + left < u64_mod
      → (d : ℕ) × (d ≤ suc st.counter)
        × After r d
            (k + left)
            (length st.sent + left)
            st.counter
            (submit_all bytes_mut accepted client left x st)
  unfolding submit_all
  submit_all-After r c k zero x st i early le h hk = (
    c,
    le,
    record {
      k = k;
      within = omega arith;
      inv = i;
      same_counter = refl;
      sent_each = λ _. omega arith;
    },
  )
  submit_all-After r c k (suc left) x st i early le h hk =
      let (d, soon, le', a) = submit-After r c k x st i early le h (omega arith) in
      elim (Bool-cases (submit bytes_mut accepted client x st).running) [
        | inl runs ↦ rw runs (
            let same = a.same_counter in
            let (d', le'', b) =
              submit_all-After r d a.k left (x + 1) (submit bytes_mut accepted client x st) a.inv
                (rw same (λ p. soon (omega (arith, p)))) (rw same le') (rw same h)
                (omega (arith, a.within, hk)) in
            (
              d',
              subst (λ n. d' ≤ suc n) same le'',
              After-weaken b (omega (arith, a.within)) (λ _. omega (arith, a.sent_each runs)) same,
            ))
        | inr ends ↦
            rw ends (d, le', After-weaken a (omega arith) (λ runs. ground (arith, runs, ends)) refl)
      ]

  -- What the client sent in the end.
  record Sends (r total : ℕ) (st : Sending) : Type 0 where
    samples : ℕ
    drawn : ℕ
    inv : Inv setup r samples drawn st
    sent_each : st.running ≡ true → length st.sent ≡ total

  main_loop-Sends :
      (r n k ticks : ℕ) (st : Sending)
      → Inv setup r n k st
      → st.counter ≡ n
      → n + ticks < u64_mod
      → k + ticks * per_tick < u64_mod
      → Sends r (length st.sent + ticks * per_tick) (main_loop bytes_mut accepted client ticks st)
  unfolding main_loop
  main_loop-Sends r n k zero st i e h hk = record {
    samples = n;
    drawn = k;
    inv = i;
    sent_each = λ _. omega arith;
  }
  main_loop-Sends r n k (suc ticks) st i e h hk =
      let after = submit_all bytes_mut accepted client per_tick 0 st in
      let (d, le, a) =
        submit_all-After r n k per_tick 0 st i (λ _. omega (arith, e)) (omega (arith, e))
          (omega (arith, e)) (omega (arith, hk)) in
      let following : add64 after.counter 1 ≡ suc n = omega (arith, a.same_counter, e, h) in
      let grown =
        Inv-mono setup r d (suc n) a.k a.k after (omega (arith, le, e)) (omega arith) a.inv.drawn
          a.inv in
      if_elim (Sends r (length st.sent + suc ticks * per_tick)) after.running
        (λ runs.
          let b =
            main_loop-Sends r (suc n) a.k ticks (record after { counter = add64 after.counter 1 })
              (record { old = grown.old; drawn = grown.drawn; distinct = grown.distinct }) following
              (omega (arith, h)) (omega (arith, a.within, hk)) in
          record {
            samples = b.samples;
            drawn = b.drawn;
            inv = b.inv;
            sent_each = λ p. omega (arith, b.sent_each p, a.sent_each runs);
          })
        (λ ends. record {
          samples = d;
          drawn = a.k;
          inv = a.inv;
          sent_each = λ p. ground (arith, p, ends);
        })

  IsOld-length : (r c k : ℕ) (t : Bytes) → IsOld setup r c k t → length t ≡ client.size
  unfolding IsOld
  IsOld-length r c k t (inl (j, below, e)) = ap length e ∙ length-tx setup 0 j
  IsOld-length r c k t (inr (i, pos, within, e)) =
      ap length e ∙ length-tx setup 1 ((r + i) % u64_mod)

-- The client for transactions of nine bytes or more, over a connection that comes about: whatever
-- the connection refuses, the transactions sent are different from each other and have the size
-- asked for; as long as none is refused, there are rate / 20 of them in each tick. The number of ticks and
-- that of the transactions asked for must fit a u64, and the crate bytes do what it documents.
pub send-AllDistinct :
    (bytes_mut : BytesMut) (accepted : ℕ → Bool) (client : Client) (r ticks : ℕ)
    → IsBytesMut bytes_mut
    → 9 ≤ client.size
    → r < u64_mod
    → ticks < u64_mod
    → ticks * (client.rate / 20) < u64_mod
    → (st : Sending) × (send bytes_mut accepted client true r ticks ≡ sending st)
      × AllDistinct st.sent
      × All (λ t. length t ≡ client.size) st.sent
      × (st.running ≡ true → length st.sent ≡ ticks * (client.rate / 20))
unfolding send AllDistinct
send-AllDistinct bytes_mut accepted client r ticks laws size fits few bounded =
    let setup : Setup = record {
      bytes_mut = bytes_mut;
      laws = laws;
      accepted = accepted;
      client = client;
      size = size;
    } in
    let start : Sending = record { counter = 0; r = r; sent = []; running = true } in
    let s =
      main_loop-Sends setup r 0 0 ticks start
        (record { old = tt; drawn = omega arith; distinct = tt }) refl (omega arith)
        (omega arith) in
    let big_enough : ltb client.size 9 ≡ false = ground arith in
    (
      main_loop bytes_mut accepted client ticks start,
      rw big_enough refl,
      s.inv.distinct,
      All-map _ _ _ (IsOld-length setup r s.samples s.drawn) s.inv.old,
      λ h. omega (arith, s.sent_each h),
    )
