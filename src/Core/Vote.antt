-- ===== src/Core/Vote.antt =====
-- The second half of a round of the agreement in consensus/src/core.rs: smvba_round_advance,
-- make_spb_vote, handle_smvba_prevote and handle_smvba_mvote.
use gnosis.Config.{quorum_threshold}
use gnosis.Crypto.{PublicKey}
use gnosis.Prelude.Words.{add64, u32_mod}
use gnosis.Messages.Checks.{verify_mvote, verify_pre_vote}
use gnosis.Error.{timeout_message}
use gnosis.Messages.Build.{new_mvote, new_spb_vote, new_halt}
use gnosis.Core.Output.{smvba_msg_filter, when_checked, handle_smvba_halt}
use gnosis.Prelude.Map.{lookup, insert, or_insert, add, get_or}
use gnosis.Core.Chain.{transmit, filter_smvba, generate_proposal}
use gnosis.Core.Round.{update_smvba_state}
use gnosis.Prelude.{
  ℕ, Option, if◌then◌else◌, none, ltb, some, true, List, false, not, [], ◌&&◌, nat_eqb, pair_eq,
  length, ◌%◌, nat_eq,
}
use gnosis.Messages.{
  SpbValue, MHalt, MVote, MPreVote, SpbVote, MVoteTag, smvba_halt, pre_yes, lock_phase, pes,
  vote_yes, init_phase, smvba_vote, vote_no, pre_no,
}
use Prim.Native.Nat.{ℕ}
use gnosis.Aggregator
use mathlib.Core.Option
use gnosis.Core.State.{Core, M, Env, ◌>>=◌, ◌>>◌, modify, get, guard, done, pure, expect, aggregate}
use gnosis.Core.Calls.{Back, call_pes_propose}

module _ (env : Env) where
  open env use {crypto}

  unfoldable pub make_spb_vote : Core → SpbValue → Option SpbVote
  make_spb_vote s value =
      if ltb lock_phase value.phase then none else some (new_spb_vote crypto value s.name)

module _ (env : Env) (rec : Back) where
  open env use {crypto}

  unfoldable pub smvba_round_advance : ℕ → ℕ → M (Unit {0})
  smvba_round_advance height round = do
    modify (update_smvba_state height round)
    s ← get
    elim (lookup (height, 1) s.spb_proposes) [
      | none ↦ done
      | some last_value ↦ do
        block ←
            generate_proposal env height (add64 s.fallback_length 1) (some last_value.block.qc) pes
        -- The failure of the broadcast is turned into a panic (`expect`).
        expect (
            rec (
              call_pes_propose
                (record {
                  val = last_value.val;
                  signatures = last_value.signatures;
                  block = block;
                  round = round;
                  phase = init_phase;
                })
                (record { phase = init_phase; round = round; height = height; shares = [] })))
    ]

  unfoldable pub broadcast_halt : MHalt → M (Unit {0})
  broadcast_halt halt = do
    s ← get
    transmit (smvba_halt halt) s.name none filter_smvba pes
    handle_smvba_halt env rec halt

  unfoldable pub handle_smvba_mvote : MVote → M (Unit {0})
  unfolding broadcast_halt
  handle_smvba_mvote mvote = do
    s ← get
    guard (smvba_msg_filter s mvote.epoch mvote.height) (timeout_message mvote.height mvote.round)
    when_checked s (verify_mvote crypto s.committee mvote s.fallback_length)
    let k : ℕ × ℕ = (mvote.height, mvote.round)
    let set : List PublicKey = add mvote.author (get_or k [] s.smvba_votes)
    modify (λ s. record s { smvba_votes = insert k set s.smvba_votes })
    let advance : M (Unit {0}) =
        if nat_eqb (length set % u32_mod) (quorum_threshold s.committee)
        then smvba_round_advance mvote.height (add64 mvote.round 1)
        else done
    elim mvote.tag [
      | vote_no ↦ advance
      | vote_yes value _ vote ↦ do
        proof ← aggregate (λ a. Aggregator.add_pre_vote a vote)
        elim proof [
          | none ↦ advance
          | some fin_proof ↦ broadcast_halt (new_halt crypto s.name mvote.leader value fin_proof)
        ]
    ]

  -- The vote that a prevote asks for, once per round.
  unfoldable pub answer_prevote : Core → MPreVote → M (Option MVote)
  answer_prevote s prevote = do
    let k : ℕ × ℕ = (prevote.height, prevote.round)
    let vote = λ (tag : MVoteTag).
        new_mvote crypto s.name prevote.leader prevote.round prevote.height prevote.epoch tag
    elim prevote.tag [
      | pre_yes value proof ↦ do
        modify (λ s. record s { smvba_y_flag = insert k true s.smvba_y_flag })
        pure (Option.map (λ v. vote (vote_yes value proof v)) (make_spb_vote env s value))
      | pre_no ↦ do
        let set : List PublicKey = add prevote.author (get_or k [] s.smvba_no_prevotes)
        modify (λ s. record s { smvba_no_prevotes = insert k set s.smvba_no_prevotes })
        if nat_eqb (length set % u32_mod) (quorum_threshold s.committee)
            then (do
              modify (λ s. record s { smvba_n_flag = insert k true s.smvba_n_flag })
              pure (some (vote vote_no)))
            else pure none
    ]

  unfoldable pub handle_smvba_prevote : MPreVote → M (Unit {0})
  unfolding answer_prevote
  handle_smvba_prevote prevote = do
    s ← get
    guard (smvba_msg_filter s prevote.epoch prevote.height)
        (timeout_message prevote.height prevote.round)
    when_checked s (verify_pre_vote crypto s.committee prevote s.fallback_length)
    let k : ℕ × ℕ = (prevote.height, prevote.round)
    modify (λ s. record s {
      smvba_y_flag = or_insert k false s.smvba_y_flag;
      smvba_n_flag = or_insert k false s.smvba_n_flag;
    })
    mvote ←
        if not (get_or k false s.smvba_y_flag) && not (get_or k false s.smvba_n_flag)
        then answer_prevote s prevote
        else pure none
    elim mvote [
      | none ↦ done
      | some vote ↦ do
        transmit (smvba_vote vote) s.name none filter_smvba pes
        handle_smvba_mvote vote
    ]
