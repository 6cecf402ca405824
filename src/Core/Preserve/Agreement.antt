-- ===== src/Core/Preserve/Agreement.antt =====
-- The handlers of the agreement (Core/Output, Vote, Coin, Spb) preserve a closed predicate, if the
-- calls back up do.
use gnosis.Prelude.Words.{add64}
use gnosis.Prelude.Map.{lookup, get_or}
use gnosis.Core.Preserve.Basics.{
  quiet, transmit-Preserves, generate_proposal-Preserves, store_block-Preserves,
  mempool_verify-Preserves, deliver_above-Preserves, cleanup_par-Preserves,
}
use gnosis.Prelude.{ℕ, nat_eqb, ltb, ◌||◌, not, refl, leb, false, pair_eq, nat_eq, ◌&&◌}
use gnosis.Core.Round.{update_smvba_state}
use gnosis.Messages.{Block, MHalt, opt, pes}
use gnosis.Core.Vote.{smvba_round_advance, broadcast_halt}
use gnosis.Core.Output.{process_par_out, handle_smvba_halt, when_checked, is_leader}
use gnosis.Error.{Outcome}
use gnosis.Leader
use gnosis.Core.State.{Core, Env}
use gnosis.Core.Calls.{Call, Back}
use gnosis.Core.Preserve.{
  Preserves, Closed, ◌▷◌, Preserves-if, Preserves-get, Preserves-lift, Preserves-pure,
  Preserves-Option, Preserves-expect,
}

module _ {P : Core → Type 0} where
  pub when_checked-Preserves : (s : Core) (r : Outcome (Unit {0})) → Preserves P (when_checked s r)
  when_checked-Preserves s r =
      Preserves-if (nat_eqb s.parameters.exp 1) (Preserves-lift r) (Preserves-pure tt)

module _ {P : Core → Type 0} (c : Closed P) (env : Env) (rec : Back)
    (back : (k : Call) → Preserves P (rec k)) where
  open c use {framed}

  pub process_par_out-Preserves : (b : Block) → Preserves P (process_par_out env rec b)
  unfolding process_par_out
  process_par_out-Preserves b = Preserves-get ▷ λ s.
      Preserves-if (ltb b.epoch s.epoch || leb (add64 b.height 2) s.height) (Preserves-pure _) (
        Preserves-if (nat_eqb b.tag opt) (back _) (
          store_block-Preserves framed env b ▷ λ _. deliver_above-Preserves c env b ▷ λ d.
          Preserves-if (d && nat_eqb b.tag pes) (Preserves-lift _)
            (cleanup_par-Preserves framed env b)))

  pub handle_smvba_halt-Preserves : (m : MHalt) → Preserves P (handle_smvba_halt env rec m)
  unfolding handle_smvba_halt
  handle_smvba_halt-Preserves m = Preserves-get ▷ λ s. Preserves-lift _ ▷ λ _.
      when_checked-Preserves s _ ▷ λ _.
      Preserves-if
        (not (
          is_leader (Leader.get_coin_leader s.leader_elector m.height m.round)
            m.value.block.author))
        (Preserves-pure _)
        (quiet framed _ (λ s. refl) ▷ λ _.
          Preserves-if (get_or m.height false s.smvba_halt_flag) (Preserves-pure _) (
            quiet framed _ (λ s. refl) ▷ λ _.
            mempool_verify-Preserves framed env m.value.block pes ▷ λ present.
            Preserves-if present (process_par_out-Preserves m.value.block) (Preserves-pure _)))

  pub smvba_round_advance-Preserves : (h r : ℕ) → Preserves P (smvba_round_advance env rec h r)
  unfolding smvba_round_advance update_smvba_state
  smvba_round_advance-Preserves h r = quiet framed _ (λ s. refl) ▷ λ _. Preserves-get ▷ λ s.
      Preserves-Option (lookup (h, 1) s.spb_proposes) (Preserves-pure _)
        (λ v. generate_proposal-Preserves framed env _ _ _ _ ▷ λ b. Preserves-expect (back _))

  pub broadcast_halt-Preserves : (m : MHalt) → Preserves P (broadcast_halt env rec m)
  unfolding broadcast_halt
  broadcast_halt-Preserves m =
      Preserves-get ▷ λ s. transmit-Preserves c _ _ _ _ _ refl ▷ λ _. handle_smvba_halt-Preserves m
