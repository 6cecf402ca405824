-- ===== src/Core/Timer/Deadline.antt =====
-- The timer as its last deadline (consensus/src/timer.rs).
use gnosis.Prelude.{
  List, Option, none, ℕ, ◌≡◌, some, ◌∷◌, [], leb, ap, ◌+◌, if◌then◌else◌, Option-cases, inl, inr,
  refl,
}
use gnosis.Core.Timer.{
  Tokio, IsTokio, Call, reset, poll, Answer, wakes, ready, pending, Timer, on_call, after,
}

-- What the newest `reset` set, if it set anything.
unfoldable pub deadline : List Call → Option ℕ
deadline [] = none
deadline (reset now none ∷ calls) = none
deadline (reset now (some duration) ∷ calls) = some (now + duration)
deadline (poll now task ∷ calls) = deadline calls

-- The task that polled last, if there was no `reset` since.
unfoldable pub waiting : List Call → Option ℕ
waiting [] = none
waiting (reset now duration ∷ calls) = none
waiting (poll now task ∷ calls) = some task

-- What a call is to do after others.
unfoldable pub expected : Call → List Call → Answer
unfolding deadline waiting
expected (reset now duration) calls = wakes (waiting calls)
expected (poll now task) calls = elim (deadline calls) [
  | none ↦ pending
  | some d ↦ if leb d now then ready else pending
]

module _ (tokio : Tokio) (laws : IsTokio tokio) where
  -- A Sleep that is ready from a deadline on.
  abbrev Sleeps : Option tokio.Sleep → Option ℕ → Type 0
  Sleeps none none = Unit
  Sleeps (some s) (some d) = (later : ℕ) → tokio.poll later s ≡ leb d later
  Sleeps _ _ = ⊥

  record Follows (calls : List Call) (st : Timer tokio) : Type 0 where
    pub sleeps : Sleeps st.sleep (deadline calls)
    pub waits : st.waker ≡ waiting calls

  poll-Follows :
      (now task : ℕ) (calls : List Call) (o : Option tokio.Sleep) (d w : Option ℕ)
      → deadline calls ≡ d
      → Sleeps o d
      → let r = on_call tokio (poll now task) (record { sleep = o; waker = w }) in
        (r.0 ≡ expected (poll now task) calls) × Follows (poll now task ∷ calls) r.1
  unfolding on_call expected deadline waiting
  poll-Follows now task calls none none w e s =
      rw (expected, e) (refl, record { sleeps = rw (deadline, e) tt; waits = refl })
  poll-Follows now task calls (some o) (some d) w e s =
      rw (expected, e) (rw (s now) refl, record { sleeps = rw (deadline, e) s; waits = refl })
  poll-Follows now task calls none (some d) w e s = elim s [ ]
  poll-Follows now task calls (some o) none w e s = elim s [ ]

  on_call-Follows :
      (c : Call) (calls : List Call) (st : Timer tokio)
      → Follows calls st
      → (((on_call tokio c st).0 ≡ expected c calls) × Follows (c ∷ calls) (on_call tokio c st).1)
  unfolding on_call expected deadline waiting
  on_call-Follows (reset now none) calls st f =
      (ap wakes f.waits, record { sleeps = tt; waits = refl })
  on_call-Follows (reset now (some duration)) calls st f = elim (Option-cases st.sleep) [
    | inl absent ↦
        rw (absent, on_call)
          (ap wakes f.waits, record { sleeps = laws.poll-sleep now duration; waits = refl })
    | inr (s, present) ↦
        rw (present, on_call)
          (
            ap wakes f.waits,
            record { sleeps = λ later. laws.poll-reset (now + duration) later s; waits = refl },
          )
  ]
  on_call-Follows (poll now task) calls st f =
      poll-Follows now task calls st.sleep (deadline calls) st.waker refl f.sleeps

  after-Follows : (calls : List Call) → Follows calls (after tokio calls)
  unfolding after deadline waiting
  after-Follows [] = record { sleeps = tt; waits = refl }
  after-Follows (c ∷ calls) = (on_call-Follows c calls (after tokio calls) (after-Follows calls)).1

-- After any calls, in whatever order, the timer answers as what was asked of it last says: a poll
-- finds it ready exactly from the deadline that the last reset set, and never if that set none; and
-- a reset wakes the task that polled since the reset before, if one did: no task that waits
-- sleeps past a change of the deadline. A Sleep of tokio must be ready from its deadline on.
pub on_call-expected :
    (tokio : Tokio) (c : Call) (calls : List Call)
    → IsTokio tokio
    → (on_call tokio c (after tokio calls)).0 ≡ expected c calls
on_call-expected tokio c calls laws =
    (on_call-Follows tokio laws c calls (after tokio calls) (after-Follows tokio laws calls)).0
