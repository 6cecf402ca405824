-- ===== src/Core/Preserve/Rounds.antt =====
-- The handlers of Core/Vote, Core/Coin and Core/Spb preserve a closed predicate, if the calls back
-- up do.
use gnosis.Config.{quorum_threshold, random_coin_threshold}
use gnosis.Prelude.Words.{u32_mod, add64}
use gnosis.Core.Chain.{filter_smvba}
use gnosis.Messages.Build.{new_pre_vote}
use gnosis.Prelude.Map.{lookup, get_or, add, insert}
use gnosis.Core.Preserve.Agreement.{
  when_checked-Preserves, broadcast_halt-Preserves, smvba_round_advance-Preserves,
}
use gnosis.Core.Preserve.Basics.{quiet, transmit-Preserves, aggregate-Preserves}
use gnosis.Prelude.{ℕ, nat_eqb, refl, length, not, ltb, false, none, pair_eq, [], ◌&&◌, ◌%◌, nat_eq}
use gnosis.Core.Spb.{
  handle_spb_finish, on_proof, handle_spb_vote, process_spb_propose, broadcast_pes_propose,
  handle_spb_proposal,
}
use gnosis.Core.Coin.{
  on_coin, handle_smvba_rs, handle_smvba_done, handle_smvba_done_with_share, invoke_done_and_share,
}
use gnosis.Core.Vote.{handle_smvba_mvote, answer_prevote, handle_smvba_prevote, make_spb_vote}
use gnosis.Messages.{
  MVoteTag, SpbValue, MVote, MPreVote, RandomCoin, RandomnessShare, MDoneAndShare, SpbProof,
  SpbVote, vote_no, PreVoteTag, vote_yes, pre_yes, smvba_pre_vote, lock_phase, init_phase,
  fin_phase, pes, pre_no,
}
use gnosis.Leader
use gnosis.Core.State.{Core, M, Env}
use gnosis.Core.Calls.{Call, Back}
use gnosis.Core.Preserve.{
  Preserves, Closed, ◌▷◌, Preserves-get, Preserves-if, Preserves-lift, Preserves-Option,
  Preserves-pure,
}

module _ {P : Core → Type 0} (c : Closed P) (env : Env) (rec : Back)
    (back : (k : Call) → Preserves P (rec k)) where
  open c use {framed}

  -- The two cases of a vote's tag.
  vote_tag-Preserves :
      (tag : MVoteTag) {m : M (Unit {0})} {f : SpbValue → SpbVote → M (Unit {0})}
      → Preserves P m
      → ((v : SpbValue) (w : SpbVote) → Preserves P (f v w))
      → Preserves P (elim tag [ vote_no ↦ m | vote_yes v _ w ↦ f v w ])
  vote_tag-Preserves (vote_yes v p w) pm pf = pf v w
  vote_tag-Preserves vote_no pm pf = pm

  pub handle_smvba_mvote-Preserves : (m : MVote) → Preserves P (handle_smvba_mvote env rec m)
  unfolding handle_smvba_mvote
  handle_smvba_mvote-Preserves m = Preserves-get ▷ λ s. Preserves-lift _ ▷ λ _.
      when_checked-Preserves s _ ▷ λ _. quiet framed _ (λ s. refl) ▷ λ _.
      let advance =
        Preserves-if
          (nat_eqb (length (add m.author (get_or (m.height, m.round) [] s.smvba_votes)) % u32_mod)
            (quorum_threshold s.committee))
          (smvba_round_advance-Preserves c env rec back m.height (add64 m.round 1))
          (Preserves-pure tt) in
      vote_tag-Preserves m.tag advance (λ v w. aggregate-Preserves framed _ ▷ λ o.
      Preserves-Option o advance (λ p. broadcast_halt-Preserves c env rec back _))

  answer_prevote-Preserves : (s : Core) (m : MPreVote) → Preserves P (answer_prevote env rec s m)
  unfolding answer_prevote
  answer_prevote-Preserves s m = answer m.tag
    where
      answer : (tag : PreVoteTag) → Preserves P (answer_prevote env rec s (record m { tag = tag }))
      answer (pre_yes v p) = quiet framed _ (λ s. refl) ▷ λ _. Preserves-pure _
      answer pre_no = quiet framed _ (λ s. refl) ▷ λ _.
          Preserves-if
            (nat_eqb
              (length (add m.author (get_or (m.height, m.round) [] s.smvba_no_prevotes)) % u32_mod)
              (quorum_threshold s.committee))
            (quiet framed _ (λ s. refl) ▷ λ _. Preserves-pure _) (Preserves-pure _)

  pub handle_smvba_prevote-Preserves : (m : MPreVote) → Preserves P (handle_smvba_prevote env rec m)
  unfolding handle_smvba_prevote
  handle_smvba_prevote-Preserves m = Preserves-get ▷ λ s. Preserves-lift _ ▷ λ _.
      when_checked-Preserves s _ ▷ λ _. quiet framed _ (λ s. refl) ▷ λ _.
      Preserves-if
        (not (get_or (m.height, m.round) false s.smvba_y_flag)
          && not (get_or (m.height, m.round) false s.smvba_n_flag))
        (answer_prevote-Preserves s m) (Preserves-pure none)
      ▷ λ o.
          Preserves-Option o (Preserves-pure _)
            (λ v. transmit-Preserves c _ _ _ _ _ refl ▷ λ _. handle_smvba_mvote-Preserves v)

  on_coin-Preserves : (coin : RandomCoin) (h r : ℕ) → Preserves P (on_coin env rec coin h r)
  unfolding on_coin
  on_coin-Preserves coin h r = quiet framed _ (λ s. refl) ▷ λ _. quiet framed _ (λ s. refl) ▷ λ _.
      Preserves-get ▷ λ s.
      let vote = λ (tag : PreVoteTag).
        transmit-Preserves c
          (smvba_pre_vote (new_pre_vote env.crypto s.name coin.leader r h coin.epoch tag)) s.name
          none filter_smvba pes refl
        ▷ λ _.
            handle_smvba_prevote-Preserves
              (new_pre_vote env.crypto s.name coin.leader r h coin.epoch tag) in
      Preserves-Option (lookup coin.leader (get_or (coin.height, coin.round) [] s.spb_finishs))
        (quiet framed _ (λ s. refl) ▷ λ _.
          Preserves-Option (lookup coin.leader (get_or (coin.height, coin.round) [] s.spb_locks))
            (vote pre_no) (λ q. vote (pre_yes q.0 q.1)))
        (λ q. broadcast_halt-Preserves c env rec back _)

  handle_smvba_rs-Preserves : (m : RandomnessShare) → Preserves P (handle_smvba_rs env rec m)
  unfolding handle_smvba_rs
  handle_smvba_rs-Preserves m = Preserves-get ▷ λ s. Preserves-lift _ ▷ λ _.
      when_checked-Preserves s _ ▷ λ _.
      Preserves-Option (Leader.get_coin_leader s.leader_elector m.height m.round)
        (aggregate-Preserves framed _ ▷ λ o.
          Preserves-Option o (Preserves-pure _) (λ coin. on_coin-Preserves coin m.height m.round))
        (λ _. Preserves-pure _)

  handle_smvba_done-Preserves : (m : MDoneAndShare) → Preserves P (handle_smvba_done env rec m)
  unfolding handle_smvba_done
  handle_smvba_done-Preserves m = Preserves-get ▷ λ s. Preserves-lift _ ▷ λ _.
      when_checked-Preserves s _ ▷ λ _.
      let weight = length (add m.author (get_or (m.height, m.round) [] s.smvba_dones)) % u32_mod in
      quiet framed _ (λ s. refl) ▷ λ _.
      Preserves-if
        (not (get_or (m.height, m.round) false s.smvba_d_flag)
          && nat_eqb weight (random_coin_threshold s.committee))
        (quiet framed _ (λ s. refl) ▷ λ _. back _)
        (Preserves-if (nat_eqb weight (quorum_threshold s.committee)) (quiet framed _ (λ s. refl))
          (Preserves-pure _))

  pub handle_smvba_done_with_share-Preserves :
      (m : MDoneAndShare) → Preserves P (handle_smvba_done_with_share env rec m)
  unfolding handle_smvba_done_with_share
  handle_smvba_done_with_share-Preserves m =
      handle_smvba_done-Preserves m ▷ λ _. handle_smvba_rs-Preserves m.share

  pub invoke_done_and_share-Preserves : (h r : ℕ) → Preserves P (invoke_done_and_share env rec h r)
  unfolding invoke_done_and_share
  invoke_done_and_share-Preserves h r = Preserves-get ▷ λ s. Preserves-lift _ ▷ λ share.
      transmit-Preserves c _ _ _ _ _ refl ▷ λ _. handle_smvba_done_with_share-Preserves _

  pub handle_spb_finish-Preserves :
      (v : SpbValue) (p : SpbProof) → Preserves P (handle_spb_finish env rec v p)
  unfolding handle_spb_finish
  handle_spb_finish-Preserves v p = Preserves-get ▷ λ s. Preserves-lift _ ▷ λ _.
      when_checked-Preserves s _ ▷ λ _. quiet framed _ (λ s. refl) ▷ λ _.
      Preserves-if (get_or (p.height, p.round) false s.smvba_d_flag) (Preserves-pure _) (
        Preserves-if
          (nat_eqb
            (length (insert v.block.author (v, p) (get_or (p.height, p.round) [] s.spb_finishs))
              % u32_mod)
            (quorum_threshold s.committee))
          (quiet framed _ (λ s. refl) ▷ λ _. invoke_done_and_share-Preserves p.height p.round)
          (Preserves-pure _))

  on_proof-Preserves : (p : SpbProof) → Preserves P (on_proof env rec p)
  unfolding on_proof
  on_proof-Preserves p = Preserves-get ▷ λ s.
      Preserves-Option (lookup (p.height, p.round) s.spb_proposes) (Preserves-lift _) (λ v.
        Preserves-if (nat_eqb p.phase lock_phase) (back _) (
          Preserves-if (nat_eqb p.phase fin_phase)
            (transmit-Preserves c _ _ _ _ _ refl ▷ λ _. handle_spb_finish-Preserves _ p)
            (Preserves-pure _)))

  pub handle_spb_vote-Preserves : (v : SpbVote) → Preserves P (handle_spb_vote env rec v)
  unfolding handle_spb_vote
  handle_spb_vote-Preserves v = Preserves-get ▷ λ s. Preserves-lift _ ▷ λ _.
      when_checked-Preserves s _ ▷ λ _.
      aggregate-Preserves framed _ ▷ λ o. Preserves-Option o (Preserves-pure _) on_proof-Preserves

  process_spb_propose-Preserves :
      (v : SpbValue) (p : SpbProof) → Preserves P (process_spb_propose env rec v p)
  unfolding process_spb_propose
  process_spb_propose-Preserves v p =
      Preserves-if (nat_eqb v.phase lock_phase) (quiet framed _ (λ s. refl)) (Preserves-pure _)
      ▷ λ _. Preserves-get ▷ λ s. Preserves-Option (make_spb_vote env s v) (Preserves-pure _) (λ w.
        Preserves-if (not (nat_eqb s.name v.block.author)) (transmit-Preserves c _ _ _ _ _ refl)
          (handle_spb_vote-Preserves w))

  pub broadcast_pes_propose-Preserves :
      (v : SpbValue) (p : SpbProof) → Preserves P (broadcast_pes_propose env rec v p)
  unfolding broadcast_pes_propose
  broadcast_pes_propose-Preserves v p =
      Preserves-if (nat_eqb p.phase init_phase) (quiet framed _ (λ s. refl)) (Preserves-pure _)
      ▷ λ _. Preserves-get ▷ λ s.
          transmit-Preserves c _ _ _ _ _ refl ▷ λ _. process_spb_propose-Preserves v p

  pub handle_spb_proposal-Preserves :
      (v : SpbValue) (p : SpbProof) → Preserves P (handle_spb_proposal env rec v p)
  unfolding handle_spb_proposal
  handle_spb_proposal-Preserves v p = Preserves-get ▷ λ s. Preserves-lift _ ▷ λ _.
      when_checked-Preserves s _ ▷ λ _.
      Preserves-if (ltb s.epoch v.block.epoch) (quiet framed _ (λ s. refl) ▷ λ _. Preserves-lift _)
        (process_spb_propose-Preserves v p)
