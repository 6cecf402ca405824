-- ===== src/Core/Prepare.antt =====
-- The prepare phase between the two paths in consensus/src/core.rs: invoke_smvba,
-- handle_par_prepare and active_prepare_phase.
use gnosis.Core.Round.{terminate_smvba}
use gnosis.Messages.Checks.{verify_prepare}
use gnosis.Config.{quorum_threshold}
use gnosis.Core.Output.{when_checked}
use gnosis.Core.Spb.{broadcast_pes_propose}
use gnosis.Error.{authority_reuse_in_prepare, timeout_message, invalid_prepare_tag}
use gnosis.Prelude.Words.{add64, u32_mod, sub64}
use gnosis.Core.Chain.{deliver_above, transmit, generate_proposal, filter_smvba}
use gnosis.Messages.Build.{new_prepare}
use gnosis.Prelude.Map.{lookup, Map, get_or, contains_key, or_insert, insert}
use gnosis.Crypto.{PublicKey, Signature}
use gnosis.Messages.{Qc, PrePare, Block, opt, genesis, par_prepare, pes, init_phase}
use gnosis.Prelude.{
  ℕ, Option, List, none, if◌then◌else◌, nat_eqb, ◌&&◌, some, [], ltb, false, not, true, nat_eq,
  length, leb, ◌%◌, pair_eq,
}
use Prim.Native.Nat.{ℕ}
use gnosis.Core.State.{M, Env, ◌>>=◌, ◌>>◌, get, guard, modify, done, pure, fail}
use gnosis.Core.Calls.{Back}

module _ (env : Env) (rec : Back) where
  open env use {crypto}

  -- The input of this node for the agreement: an empty block, or a new one over the QC.
  unfoldable pub smvba_input : ℕ → ℕ → Option Qc → M Block
  smvba_input height val qc = do
    s ← get
    if nat_eqb val opt
        then pure (record genesis { author = s.name; epoch = s.epoch; height = height })
        else generate_proposal env height (add64 s.fallback_length 1) qc pes

  unfoldable pub invoke_smvba : ℕ → ℕ → List (PublicKey × Signature) → Option Qc → M (Unit {0})
  unfolding smvba_input
  invoke_smvba height val signatures qc = do
    s ← get
    modify (λ s. record s { smvba_is_invoke = or_insert height false s.smvba_is_invoke })
    if get_or height false s.smvba_is_invoke then done else (do
      modify (λ s. record s { smvba_is_invoke = insert height true s.smvba_is_invoke })
      block ← smvba_input height val qc
      let round = get_or height 1 s.smvba_current_round
      modify (λ s. record s { smvba_current_round = or_insert height 1 s.smvba_current_round })
      broadcast_pes_propose env rec
          (record {
            val = val;
            signatures = signatures;
            block = block;
            round = round;
            phase = init_phase;
          })
          (record { phase = init_phase; round = round; height = height; shares = [] }))

  -- The block of the optimistic path that a quorum of prepares commits, if it is stored.
  unfoldable pub fast_commit : Qc → M (Unit {0})
  fast_commit qc = do
    s ← get
    elim (lookup qc.hash s.store) [
      | none ↦ done
      | some block ↦ do _ ← deliver_above env block; done
    ]

  unfoldable pub on_opt_prepare : PrePare → M (Unit {0})
  unfolding fast_commit
  on_opt_prepare prepare = do
    s ← get
    let opt_set : Map PublicKey Signature = get_or prepare.height [] s.par_prepare_opts
    let opt_set' : Map PublicKey Signature = insert prepare.author prepare.signature opt_set
    guard (not (contains_key prepare.author opt_set)) (authority_reuse_in_prepare prepare.author)
    modify (λ s. record s { par_prepare_opts = insert prepare.height opt_set' s.par_prepare_opts })
    if nat_eqb (length opt_set' % u32_mod) (quorum_threshold s.committee)
        then (do
          fast_commit prepare.qc
          if s.pes_path && leb 2 prepare.height
              then terminate_smvba (sub64 prepare.height 1)
              else done)
        else done
    invoke_smvba prepare.height opt [] (some prepare.qc)

  unfoldable pub on_pes_prepare : PrePare → M (Unit {0})
  on_pes_prepare prepare = do
    s ← get
    let pes_set : Map PublicKey Signature = get_or prepare.height [] s.par_prepare_pess
    let pes_set' : Map PublicKey Signature = insert prepare.author prepare.signature pes_set
    let k : ℕ × ℕ = (prepare.height, s.fallback_length)
    guard (not (contains_key prepare.author pes_set)) (authority_reuse_in_prepare prepare.author)
    modify (λ s. record s { par_prepare_pess = insert prepare.height pes_set' s.par_prepare_pess })
    if leb (quorum_threshold s.committee) (length pes_set' % u32_mod)
        then (do
          modify (λ s. record s { fallback_high_qc = or_insert k none s.fallback_high_qc })
          elim (get_or k none s.fallback_high_qc) [
            | none ↦ done
            | some qc ↦ invoke_smvba prepare.height pes pes_set' (some qc)
          ])
        else done

  unfoldable pub handle_par_prepare : PrePare → M (Unit {0})
  unfolding on_opt_prepare on_pes_prepare
  handle_par_prepare prepare = do
    s ← get
    guard (nat_eqb prepare.epoch s.epoch && ltb s.height (add64 prepare.height 2))
        (timeout_message prepare.epoch prepare.height)
    when_checked s (verify_prepare crypto s.committee prepare s.fallback_length)
    modify (λ s. record s {
      par_prepare_opts = or_insert prepare.height [] s.par_prepare_opts;
      par_prepare_pess = or_insert prepare.height [] s.par_prepare_pess;
    })
    if nat_eqb prepare.val opt
        then on_opt_prepare prepare
        else if nat_eqb prepare.val pes
        then on_pes_prepare prepare
        else fail (invalid_prepare_tag prepare.val)

  unfoldable pub active_prepare_phase : ℕ → Qc → ℕ → M (Unit {0})
  active_prepare_phase height qc val = do
    s ← get
    let prepare = new_prepare crypto s.name s.epoch height qc val
    if contains_key height s.prepare_tag then done else (do
      modify (λ s. record s { prepare_tag = insert height prepare s.prepare_tag })
      transmit (par_prepare prepare) s.name none filter_smvba pes
      handle_par_prepare prepare)
