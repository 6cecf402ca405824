-- ===== src/Core/Spb.antt =====
-- The provable broadcast in consensus/src/core.rs: broadcast_pes_propose, handle_spb_proposal,
-- process_spb_propose, handle_spb_vote and handle_spb_finish.
use gnosis.Core.Coin.{invoke_done_and_share}
use gnosis.Config.{quorum_threshold}
use gnosis.Prelude.Words.{u32_mod}
use gnosis.Core.Vote.{make_spb_vote}
use gnosis.Core.Chain.{transmit, filter_smvba}
use gnosis.Messages.Checks.{verify_value, verify_spb_vote}
use gnosis.Error.{timeout_message, panic, epoch_end}
use gnosis.Core.Output.{smvba_msg_filter, when_checked}
use gnosis.Prelude.Map.{lookup, insert, get_or, or_insert}
use gnosis.Prelude.{
  ℕ, if◌then◌else◌, none, nat_eqb, some, ltb, [], ◌++◌, false, not, ◌∷◌, length, ◌%◌, pair_eq,
  nat_eq, true,
}
use Prim.Native.Nat.{ℕ}
use gnosis.Messages.{
  SpbValue, SpbProof, SpbVote, lock_phase, init_phase, fin_phase, spb_finish, spb_propose, pes,
  spb_vote,
}
use gnosis.Aggregator
use gnosis.Core.State.{
  M, Env, ◌>>=◌, ◌>>◌, get, guard, lift, modify, Proposals, aggregate, done, fail,
}
use gnosis.Core.Calls.{Back, call_pes_propose}

module _ (env : Env) (rec : Back) where
  open env use {crypto}

  unfoldable pub handle_spb_finish : SpbValue → SpbProof → M (Unit {0})
  handle_spb_finish value proof = do
    s ← get
    guard (smvba_msg_filter s value.block.epoch proof.height)
        (timeout_message proof.height proof.round)
    when_checked s (verify_value crypto s.committee value proof s.fallback_length)
    let k : ℕ × ℕ = (proof.height, proof.round)
    let finishs : Proposals = insert value.block.author (value, proof) (get_or k [] s.spb_finishs)
    modify (λ s. record s {
      spb_finishs = insert k finishs s.spb_finishs;
      smvba_d_flag = or_insert k false s.smvba_d_flag;
    })
    if get_or k false s.smvba_d_flag
        then done
        else if nat_eqb (length finishs % u32_mod) (quorum_threshold s.committee)
        then (do
          modify (λ s. record s { smvba_d_flag = insert k true s.smvba_d_flag })
          invoke_done_and_share env rec proof.height proof.round)
        else done

  -- What follows a proof of the own value: the next phase, or the finish.
  unfoldable pub on_proof : SpbProof → M (Unit {0})
  on_proof proof = do
    s ← get
    elim (lookup (proof.height, proof.round) s.spb_proposes) [
      | none ↦ lift panic
      | some value ↦
          let finished : SpbValue = record value { phase = fin_phase } in
          if nat_eqb proof.phase lock_phase
          then rec (call_pes_propose (record value { phase = lock_phase }) proof)
          else if nat_eqb proof.phase fin_phase
          then (do
            transmit (spb_finish finished proof) s.name none filter_smvba pes
            handle_spb_finish finished proof)
          else done
    ]

  unfoldable pub handle_spb_vote : SpbVote → M (Unit {0})
  unfolding on_proof
  handle_spb_vote vote = do
    s ← get
    guard (smvba_msg_filter s vote.epoch vote.height) (timeout_message vote.height vote.round)
    when_checked s (verify_spb_vote crypto s.committee vote)
    p ← aggregate (λ a. Aggregator.add_spb_vote a vote)
    elim p [ none ↦ done | some proof ↦ on_proof proof ]

  unfoldable pub process_spb_propose : SpbValue → SpbProof → M (Unit {0})
  process_spb_propose value proof = do
    let k : ℕ × ℕ = (value.block.height, value.round)
    if nat_eqb value.phase lock_phase
        then modify (λ s. record s {
          spb_locks =
              insert k (insert value.block.author (value, proof) (get_or k [] s.spb_locks))
                s.spb_locks;
        })
        else done
    s ← get
    elim (make_spb_vote env s value) [
      | none ↦ done
      | some vote ↦
          if not (nat_eqb s.name value.block.author)
          then transmit (spb_vote vote) s.name (some value.block.author) filter_smvba pes
          else handle_spb_vote vote
    ]

  unfoldable pub broadcast_pes_propose : SpbValue → SpbProof → M (Unit {0})
  broadcast_pes_propose value proof = do
    if nat_eqb proof.phase init_phase
        then modify (λ s. record s {
          spb_proposes = insert (value.block.height, value.round) value s.spb_proposes;
        })
        else done
    s ← get
    transmit (spb_propose value proof) s.name none filter_smvba pes
    process_spb_propose value proof

  unfoldable pub handle_spb_proposal : SpbValue → SpbProof → M (Unit {0})
  handle_spb_proposal value proof = do
    s ← get
    guard (smvba_msg_filter s value.block.epoch proof.height)
        (timeout_message proof.height proof.round)
    when_checked s (verify_value crypto s.committee value proof s.fallback_length)
    if ltb s.epoch value.block.epoch
        then (do
          modify (λ s. record s {
            unhandle_message =
                s.unhandle_message ++ (value.block.epoch, spb_propose value proof) ∷ [];
          })
          fail (epoch_end s.epoch))
        else process_spb_propose value proof
