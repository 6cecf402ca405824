-- ===== src/Core/Timer.antt =====
-- consensus/src/timer.rs: a timer that can be set again while a task waits for it. tokio's Sleep is a
-- parameter; instants are numbers of milliseconds, and a waker is the number of its task.
pub mod Deadline
use gnosis.Prelude.{ℕ, Option, none, List, Bool, ◌≡◌, some, ◌∷◌, [], leb, ◌+◌, if◌then◌else◌}

-- What the source calls of a Sleep: to make one, to move its deadline, and to poll it at an instant.
pub record Tokio : Type 1 where
  pub Sleep : Type 0
  pub sleep : (now duration : ℕ) → Sleep
  pub reset : (deadline : ℕ) → Sleep → Sleep
  pub poll : (now : ℕ) → Sleep → Bool

-- What is documented of it: a Sleep is ready from its deadline on.
pub record IsTokio (tokio : Tokio) : Type 0 where
  pub poll-sleep :
      (now duration later : ℕ)
      → tokio.poll later (tokio.sleep now duration) ≡ leb (now + duration) later
  pub poll-reset :
      (deadline later : ℕ) (s : tokio.Sleep)
      → tokio.poll later (tokio.reset deadline s) ≡ leb deadline later

-- A call of `reset` or `poll`, at an instant; `poll` with the task that waits.
pub data Call : Type 0 where
  reset : (now : ℕ) → (duration : Option ℕ) → Call
  poll : (now task : ℕ) → Call

-- What a call does: it wakes a task, or no task, or it says whether the timer is ready.
pub data Answer : Type 0 where
  wakes : Option ℕ → Answer
  ready pending : Answer

module _ (tokio : Tokio) where
  pub record Timer : Type 0 where
    pub sleep : Option tokio.Sleep
    pub waker : Option ℕ

  -- Timer::new
  abbrev pub new : Timer
  new = record { sleep = none; waker = none }

  -- Timer::reset, and the poll of Timer as a future.
  unfoldable pub on_call : Call → Timer → Answer × Timer
  on_call (reset now none) st = (wakes st.waker, record { sleep = none; waker = none })
  on_call (reset now (some duration)) st = elim st.sleep [
    | some s ↦
        (wakes st.waker, record { sleep = some (tokio.reset (now + duration) s); waker = none })
    | none ↦ (wakes st.waker, record { sleep = some (tokio.sleep now duration); waker = none })
  ]
  on_call (poll now task) st = elim st.sleep [
    | some s ↦
        (if tokio.poll now s then ready else pending, record { sleep = some s; waker = some task })
    | none ↦ (pending, record { sleep = none; waker = some task })
  ]

  -- After the calls, the newest first.
  unfoldable pub after : List Call → Timer
  unfolding on_call
  after [] = new
  after (c ∷ calls) = (on_call c (after calls)).1
