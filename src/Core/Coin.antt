-- ===== src/Core/Coin.antt =====
-- The random coin in consensus/src/core.rs: handle_smvba_rs, handle_smvba_done,
-- handle_smvba_done_with_share and invoke_done_and_share.
use gnosis.Config.{random_coin_threshold, quorum_threshold}
use gnosis.Prelude.Words.{u32_mod}
use gnosis.Core.Vote.{handle_smvba_prevote, broadcast_halt}
use gnosis.Crypto.{PublicKey}
use gnosis.Messages.Checks.{verify_share, verify_done}
use gnosis.Core.Chain.{transmit, filter_smvba}
use gnosis.Error.{timeout_message}
use gnosis.Messages.Build.{new_share, new_done, new_pre_vote, new_halt}
use gnosis.Core.Output.{smvba_msg_filter, when_checked}
use gnosis.Prelude.Map.{or_insert, add, get_or, lookup, insert}
use gnosis.Prelude.{
  ℕ, [], none, some, List, length, ◌%◌, false, if◌then◌else◌, pair_eq, not, nat_eq, ◌&&◌, nat_eqb,
  true,
}
use gnosis.Messages.{
  RandomCoin, RandomnessShare, MDoneAndShare, PreVoteTag, smvba_pre_vote, spb_done_and_share, pes,
  pre_yes, pre_no,
}
use Prim.Native.Nat.{ℕ}
use gnosis.Aggregator
use gnosis.Leader
use gnosis.Core.State.{M, Env, ◌>>=◌, ◌>>◌, modify, get, guard, lift, done, aggregate}
use gnosis.Core.Calls.{Back, call_done_and_share}

module _ (env : Env) (rec : Back) where
  open env use {crypto}

  -- What a node does when the coin has elected a leader: halt with the leader's finished value, or
  -- vote on whether the leader's value was locked.
  unfoldable pub on_coin : RandomCoin → (height round : ℕ) → M (Unit {0})
  on_coin coin height round = do
    let k : ℕ × ℕ = (coin.height, coin.round)
    modify (λ s. record s { leader_elector = Leader.add_random_coin s.leader_elector coin })
    modify (λ s. record s { spb_finishs = or_insert k [] s.spb_finishs })
    s ← get
    let vote = λ (tag : PreVoteTag). do
      let pre_vote = new_pre_vote crypto s.name coin.leader round height coin.epoch tag
      transmit (smvba_pre_vote pre_vote) s.name none filter_smvba pes
      handle_smvba_prevote env rec pre_vote
    elim (lookup coin.leader (get_or k [] s.spb_finishs)) [
      | some (value, proof) ↦
          broadcast_halt env rec (new_halt crypto s.name coin.leader value proof)
      | none ↦ do
        modify (λ s. record s { spb_locks = or_insert k [] s.spb_locks })
        elim (lookup coin.leader (get_or k [] s.spb_locks)) [
          | some (value, proof) ↦ vote (pre_yes value proof)
          | none ↦ vote pre_no
        ]
    ]

  unfoldable pub handle_smvba_rs : RandomnessShare → M (Unit {0})
  unfolding on_coin
  handle_smvba_rs share = do
    s ← get
    guard (smvba_msg_filter s share.epoch share.height) (timeout_message share.height share.round)
    when_checked s (verify_share crypto s.committee share)
    elim (Leader.get_coin_leader s.leader_elector share.height share.round) [
      | some leader ↦ done
      | none ↦ do
        c ← aggregate (λ a. Aggregator.add_smvba_random crypto a share)
        elim c [ none ↦ done | some coin ↦ on_coin coin share.height share.round ]
    ]

  unfoldable pub handle_smvba_done : MDoneAndShare → M (Unit {0})
  handle_smvba_done mdone = do
    s ← get
    guard (smvba_msg_filter s mdone.epoch mdone.height) (timeout_message mdone.height mdone.round)
    when_checked s (verify_done crypto s.committee mdone)
    let k : ℕ × ℕ = (mdone.height, mdone.round)
    let set : List PublicKey = add mdone.author (get_or k [] s.smvba_dones)
    let weight = length set % u32_mod
    modify (λ s. record s {
      smvba_d_flag = or_insert k false s.smvba_d_flag;
      smvba_dones = insert k set s.smvba_dones;
    })
    if not (get_or k false s.smvba_d_flag) && nat_eqb weight (random_coin_threshold s.committee)
        then (do
          modify (λ s. record s { smvba_d_flag = insert k true s.smvba_d_flag })
          rec (call_done_and_share mdone.height mdone.round))
        else if nat_eqb weight (quorum_threshold s.committee)
        then modify
            (λ s. record s { spb_abandon_flag = insert mdone.height true s.spb_abandon_flag })
        else done

  unfoldable pub handle_smvba_done_with_share : MDoneAndShare → M (Unit {0})
  handle_smvba_done_with_share mdone = do handle_smvba_done mdone; handle_smvba_rs mdone.share

  unfoldable pub invoke_done_and_share : ℕ → ℕ → M (Unit {0})
  invoke_done_and_share height round = do
    s ← get
    share ← lift (new_share crypto height s.epoch round s.name)
    let mdone = new_done crypto s.name s.epoch height round share
    transmit (spb_done_and_share mdone) s.name none filter_smvba pes
    handle_smvba_done_with_share mdone
