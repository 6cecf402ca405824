-- ===== src/Core/Fallback.antt =====
-- The fallback path in consensus/src/core.rs: invoke_fallback, broadcast_fallback_propose,
-- make_fallback_vote, handle_fallback_vote, handle_fallback_propose, process_fallback_propose.
use gnosis.Core.Prepare.{active_prepare_phase}
use gnosis.Messages.Checks.{verify_hvote, verify_block}
use gnosis.Messages.Build.{new_hvote}
use gnosis.Core.Chain.{store_block, transmit, generate_proposal, filter_smvba, mempool_verify}
use gnosis.Error.{timeout_message, epoch_end}
use gnosis.Prelude.Words.{add64}
use gnosis.Core.Output.{fallback_message_filter, when_checked}
use gnosis.Prelude.Map.{insert, or_insert, contains_key, get_or}
use gnosis.Prelude.{
  ℕ, Option, if◌then◌else◌, leb, some, false, nat_eqb, none, ltb, true, not, ◌++◌, ◌∷◌, nat_eq, [],
  pair_eq,
}
use gnosis.Messages.{Block, Qc, HVote, fb_propose, pes, fb_vote, fallback}
use Prim.Native.Nat.{ℕ}
use gnosis.Aggregator
use gnosis.Core.State.{Core, M, Env, ◌>>=◌, ◌>>◌, modify, get, guard, done, aggregate, fail}
use gnosis.Core.Calls.{Back, call_fallback_propose}

module _ (env : Env) (rec : Back) where
  open env use {crypto}

  unfoldable pub make_fallback_vote : Core → Block → Option HVote
  make_fallback_vote s block =
      if leb (add64 block.height 2) s.height then none else some (new_hvote crypto block s.name pes)

  -- What follows a QC of the fallback path: the author of its block proposes the next one, or
  -- starts to prepare after the last.
  unfoldable pub on_fallback_qc : Qc → M (Unit {0})
  on_fallback_qc qc = do
    modify (λ s. record s {
      fallback_high_qc = insert (qc.height, qc.round) (some qc) s.fallback_high_qc;
    })
    s ← get
    if nat_eqb qc.proposer s.name
        then if ltb qc.round s.fallback_length
          then (do
            block ← generate_proposal env qc.height (add64 qc.round 1) (some qc) pes
            rec (call_fallback_propose block))
          else if nat_eqb qc.round s.fallback_length
          then active_prepare_phase env rec qc.height qc pes
          else done
        else done

  unfoldable pub handle_fallback_vote : HVote → M (Unit {0})
  unfolding on_fallback_qc
  handle_fallback_vote vote = do
    s ← get
    guard (fallback_message_filter s vote.epoch vote.height)
        (timeout_message vote.epoch vote.height)
    when_checked s (verify_hvote crypto s.committee vote)
    q ← aggregate (λ a. Aggregator.add_fallback_vote a vote)
    elim q [ none ↦ done | some qc ↦ on_fallback_qc qc ]

  unfoldable pub process_fallback_propose : Block → M (Unit {0})
  process_fallback_propose block = do
    s ← get
    guard (fallback_message_filter s block.epoch block.height)
        (timeout_message block.epoch block.height)
    modify (store_block env block)
    elim (make_fallback_vote s block) [
      | none ↦ done
      | some vote ↦
          if not (nat_eqb block.author s.name)
          then transmit (fb_vote vote) s.name (some block.author) filter_smvba pes
          else handle_fallback_vote vote
    ]

  unfoldable pub handle_fallback_propose : Block → M (Unit {0})
  handle_fallback_propose block = do
    s ← get
    guard (fallback_message_filter s block.epoch block.height)
        (timeout_message block.epoch block.height)
    when_checked s (verify_block crypto s.committee block)
    if ltb s.epoch block.epoch
        then (do
          modify (λ s. record s {
            unhandle_message = s.unhandle_message ++ (block.epoch, fb_propose block) ∷ [];
          })
          fail (epoch_end s.epoch))
        else (do
          present ← mempool_verify env block fallback
          if present then process_fallback_propose block else done)

  unfoldable pub broadcast_fallback_propose : Block → M (Unit {0})
  broadcast_fallback_propose block = do
    s ← get
    modify (λ s. record s { smvba_is_invoke = or_insert block.height false s.smvba_is_invoke })
    if get_or block.height false s.smvba_is_invoke then done else (do
      transmit (fb_propose block) s.name none filter_smvba pes
      process_fallback_propose block)

  unfoldable pub invoke_fallback : ℕ → Option Qc → M (Unit {0})
  invoke_fallback height qc = do
    s ← get
    if contains_key height s.fallback_is_invoke then done else (do
      modify (λ s. record s { fallback_is_invoke = insert height true s.fallback_is_invoke })
      block ← generate_proposal env height 1 qc pes
      broadcast_fallback_propose block)
