-- ===== src/Core/Output.antt =====
-- The filters of stale messages and the output of the agreement, in consensus/src/core.rs:
-- smvba_msg_filter, fallback_message_filter, handle_smvba_halt, process_par_out.
use gnosis.Prelude.Map.{or_insert, get_or, insert}
use gnosis.Core.Chain.{store_block, deliver_above, mempool_verify, cleanup_par}
use gnosis.Messages.Checks.{verify_halt}
use gnosis.Prelude.Words.{add64}
use gnosis.Crypto.{PublicKey}
use gnosis.Messages.{Block, MHalt, opt, pes}
use gnosis.Error.{Outcome, timeout_message, epoch_end}
use gnosis.Prelude.{
  ℕ, Bool, if◌then◌else◌, Option, ltb, leb, nat_eqb, false, ◌||◌, true, some, none, not, nat_eq,
  ◌&&◌,
}
use Prim.Native.Nat.{ℕ}
use gnosis.Leader
use gnosis.Core.State.{Core, M, Env, ◌>>=◌, ◌>>◌, get, lift, done, guard, modify, fail}
use gnosis.Core.Calls.{Back, call_invoke_fallback}

unfoldable pub smvba_msg_filter : Core → (epoch height : ℕ) → Bool
smvba_msg_filter s epoch height =
    if ltb epoch s.epoch then false else if leb (add64 height 2) s.height then false else true

unfoldable pub fallback_message_filter : Core → (epoch height : ℕ) → Bool
fallback_message_filter s epoch height =
    if leb (add64 height 2) s.height || ltb epoch s.epoch then false else true

-- `exp == 1` turns the checks of the messages on.
abbrev pub when_checked : Core → Outcome (Unit {0}) → M (Unit {0})
when_checked s check = if nat_eqb s.parameters.exp 1 then lift check else done

-- Whether the coin elected the author of a value.
unfoldable pub is_leader : Option PublicKey → PublicKey → Bool
is_leader none author = false
is_leader (some leader) author = nat_eqb leader author

module _ (env : Env) (rec : Back) where
  open env use {crypto}

  unfoldable pub process_par_out : Block → M (Unit {0})
  process_par_out block = do
    s ← get
    if ltb block.epoch s.epoch || leb (add64 block.height 2) s.height
        then done
        else if nat_eqb block.tag opt
        then rec (call_invoke_fallback (add64 block.height 1) none)
        else (do
          modify (store_block env block)
          delivered ← deliver_above env block
          if delivered && nat_eqb block.tag pes
              then fail (epoch_end s.epoch)
              else cleanup_par env block)

  unfoldable pub handle_smvba_halt : MHalt → M (Unit {0})
  handle_smvba_halt halt = do
    s ← get
    guard (smvba_msg_filter s halt.epoch halt.height) (timeout_message halt.height halt.round)
    when_checked s (verify_halt crypto s.committee halt s.fallback_length)
    if not (
          is_leader (Leader.get_coin_leader s.leader_elector halt.height halt.round)
            halt.value.block.author)
        then done
        else (do
          modify (λ s. record s { smvba_halt_flag = or_insert halt.height false s.smvba_halt_flag })
          if get_or halt.height false s.smvba_halt_flag then done else (do
            modify (λ s. record s { smvba_halt_flag = insert halt.height true s.smvba_halt_flag })
            present ← mempool_verify env halt.value.block pes
            if present then process_par_out halt.value.block else done))
