-- ===== src/Core/Opt.antt =====
-- The optimistic path in consensus/src/core.rs, a two-chain HotStuff: make_opt_vote,
-- handle_opt_vote, process_opt_block, handle_opt_proposal and opt_propose.
use gnosis.Messages.Checks.{verify_hvote, verify_block}
use gnosis.Core.Fallback.{invoke_fallback}
use gnosis.Messages.Digests.{hvote_digest, block_digest}
use gnosis.Messages.Build.{new_hvote}
use gnosis.Core.Prepare.{active_prepare_phase}
use gnosis.Error.{
  panic, wrong_vote_recipient, epoch_end, wrong_block_sender, non_consecutive_rounds,
}
use gnosis.Core.Round.{terminate_smvba, increase_last_voted_round, process_qc}
use gnosis.Prelude.Words.{add64, sub64, u64_mod}
use gnosis.Core.Chain.{
  deliver_above, transmit, get_ancestors, generate_proposal, filter, store_block, mempool_verify,
}
use Prim.Native.Nat.{ℕ}
use gnosis.Prelude.{
  none, Option, ℕ, List, if◌then◌else◌, ltb, ◌∷◌, some, ◌&&◌, is_some, nat_eqb, ◌||◌, not, ◌++◌, [],
  ◌*◌, ◌%◌,
}
use gnosis.Crypto.{PublicKey}
use gnosis.Messages.{Block, HVote, ConsensusMessage, hs_vote, hs_propose, opt, qc_eq, genesis_qc}
use gnosis.Aggregator
use gnosis.Leader
use gnosis.Core.State.{M, Env, ◌>>=◌, ◌>>◌, get, lift, done, modify, fail, pure, guard, aggregate}
use gnosis.Core.Calls.{Back, call_opt_propose}

-- The place of an authority among the leaders of a height.
unfoldable pub leader_index : PublicKey → ℕ → M (Option ℕ)
leader_index name height s = lift (Leader.index_as_leader s.leader_elector name height) s

-- The vote goes to each leader of the next height but the node itself.
unfoldable pub send_to_leaders : ConsensusMessage → PublicKey → List PublicKey → M (Unit {0})
send_to_leaders message name [] = done
send_to_leaders message name (leader ∷ leaders) =
    let rest = send_to_leaders message name leaders in
    do
      if not (nat_eqb name leader) then transmit message name (some leader) filter opt else done
      rest

module _ (env : Env) (rec : Back) where
  open env use {crypto}

  unfoldable pub make_opt_vote : Block → M (Option HVote)
  make_opt_vote block = do
    s ← get
    if ltb s.last_voted_height block.height && nat_eqb (add64 block.qc.height 1) block.height
        then (do
          modify (increase_last_voted_round block.height)
          pure (some (new_hvote crypto block s.name opt)))
        else pure none

  unfoldable pub handle_opt_vote : HVote → M (Unit {0})
  handle_opt_vote vote = do
    s ← get
    if ltb vote.height s.height || ltb vote.epoch s.epoch then done else (do
      leader_idx ← leader_index s.name (add64 vote.height 1)
      elim leader_idx [
        | none ↦ fail (wrong_vote_recipient (hvote_digest crypto vote) vote.author vote.height)
        | some i ↦ do
          lift (verify_hvote crypto s.committee vote)
          q ← aggregate (λ a. Aggregator.add_hs_vote a vote)
          elim q [
            | none ↦ done
            | some qc ↦ do
              modify (process_qc qc)
              if nat_eqb i 0
                  then rec call_opt_propose
                  else modify
                      (λ s. record s { timer = some ((i * s.parameters.timeout_delay) % u64_mod) })
          ]
      ])

  -- The commit of the block two before, by the two-chain rule.
  unfoldable pub commit_grandparent : Block → M (Unit {0})
  commit_grandparent b0 = do _ ← deliver_above env b0; done

  -- The vote for a block of the current height, sent and handled.
  unfoldable pub vote_for : Block → M (Unit {0})
  unfolding leader_index
  vote_for block = do
    v ← make_opt_vote block
    elim v [
      | none ↦ done
      | some vote ↦ do
        s ← get
        leaders ← lift (Leader.get_leaders s.leader_elector (add64 s.height 1))
        send_to_leaders (hs_vote vote) s.name leaders
        next ← leader_index s.name (add64 s.height 1)
        elim next [ none ↦ done | some i ↦ handle_opt_vote vote ]
    ]

  -- Ends older agreements and starts the pessimistic path beside the block.
  unfoldable pub beside : Block → M (Unit {0})
  beside block = do
    s ← get
    if s.pes_path && ltb 2 block.height then terminate_smvba (sub64 s.height 2) else done
    if s.pes_path && ltb 1 block.height
        then active_prepare_phase env rec (sub64 block.height 1) block.qc opt
        else done
    if s.pes_path then invoke_fallback env rec block.height (some block.qc) else done

  unfoldable pub process_opt_block : Block → M (Unit {0})
  unfolding commit_grandparent vote_for beside leader_index
  process_opt_block block = do
    s ← get
    idx ← leader_index s.name block.height
    elim idx [ none ↦ done | some i ↦ modify (λ s. record s { timer = none }) ]
    ancestors ← get_ancestors block
    elim ancestors [
      | none ↦ done
      | some (b0, b1) ↦ do
        modify (store_block env block)
        beside block
        guard
            ((nat_eqb (add64 b0.height 1) b1.height && nat_eqb (add64 b1.height 1) block.height)
              || qc_eq block.qc genesis_qc)
            (non_consecutive_rounds b0.height b1.height block.height)
        commit_grandparent b0
        s' ← get
        if nat_eqb block.height s'.height then vote_for block else done
    ]

  unfoldable pub handle_opt_proposal : Block → M (Unit {0})
  unfolding leader_index
  handle_opt_proposal block = do
    s ← get
    if ltb block.epoch s.epoch
        then done
        else if ltb s.epoch block.epoch
        then (do
          modify (λ s. record s {
            unhandle_message = s.unhandle_message ++ (block.epoch, hs_propose block) ∷ [];
          })
          fail (epoch_end s.epoch))
        else (do
          idx ← leader_index block.author block.height
          guard (is_some idx)
              (wrong_block_sender (block_digest crypto block) block.author block.height)
          lift (verify_block crypto s.committee block)
          if s.pes_path && ltb 2 block.height then terminate_smvba (sub64 block.height 2) else done
          modify (process_qc block.qc)
          present ← mempool_verify env block opt
          if present then process_opt_block block else done)

  unfoldable pub opt_propose : M (Unit {0})
  unfolding leader_index
  opt_propose = do
    s ← get
    idx ← leader_index s.name s.height
    -- The index is unwrapped.
    if is_some idx then done else lift panic
    block ← generate_proposal env s.height 0 (some s.high_qc) opt
    transmit (hs_propose block) s.name none filter opt
    process_opt_block block
