-- ===== src/Tests/Timer.antt =====
-- An example about the timer, with a Sleep that is its deadline.
use gnosis.Prelude.{ℕ, List, none, refl, ◌+◌, ◌∷◌, ◌≡◌, leb, some, []}
use gnosis.Core.Timer.{Tokio, IsTokio, Call, reset, poll, on_call, after}
use gnosis.Core.Timer.Deadline.{on_call-expected, expected}

abbrev clock : Tokio
clock = record {
  Sleep = ℕ;
  sleep = λ now duration. now + duration;
  reset = λ deadline s. deadline;
  poll = λ now s. leb s now;
}

clock-IsTokio : IsTokio clock
clock-IsTokio = record {
  poll-sleep = λ now duration later. refl;
  poll-reset = λ deadline later s. refl;
}

abbrev calls : List Call
calls = poll 40 2 ∷ reset 30 (some 5000) ∷ poll 10 1 ∷ reset 0 (some 100) ∷ []

on_call-expected_example :
    (on_call clock (reset 50 none) (after clock calls)).0 ≡ expected (reset 50 none) calls
on_call-expected_example = on_call-expected clock (reset 50 none) calls clock-IsTokio
