-- ===== src/Core/Calls.antt =====
-- The handlers of consensus/src/core.rs call one another in a cycle (`async_recursion`). Each is
-- defined over the handlers below it, and takes the calls that lead back up as an argument: `Call`
-- names these, and the event loop ties the knot.
use gnosis.Prelude.{ℕ, Option}
use Prim.Native.Nat.{ℕ}
use gnosis.Messages.{Block, Qc, SpbValue, SpbProof}
use gnosis.Core.State.{M}

pub data Call : Type 0 where
  -- from handle_opt_vote
  call_opt_propose : Call
  -- from handle_fallback_vote
  call_fallback_propose : Block → Call
  -- from process_par_out
  call_invoke_fallback : ℕ → Option Qc → Call
  -- from handle_spb_vote and smvba_round_advance
  call_pes_propose : SpbValue → SpbProof → Call
  -- from handle_smvba_done
  call_done_and_share : ℕ → ℕ → Call

abbrev pub Back : Type 0
Back = Call → M (Unit {0})
