-- ===== src/Core/Preserve/Basics.antt =====
-- The actions of Core/Chain and Core/Round preserve a framed, or a closed, predicate.
use gnosis.Prelude.Map.{lookup}
use gnosis.Crypto.{Digest}
use gnosis.Error.{Outcome, ok, err, panic, out_of_fuel}
use gnosis.Aggregator.{Aggregator}
use gnosis.Messages.{Qc, Block, ConsensusMessage, qc_eq, genesis_qc}
use gnosis.Core.Chain.{
  get_parent_block, get_ancestors, mempool_verify, cleanup_par, generate_proposal, commit_loop,
  commit, store_block, transmit, deliver, Net, or_panic, deliver_above, handle_sync_request,
}
use gnosis.Prelude.{
  ◌≡◌, ◌∙◌, ℕ, none, Option, some, suc, Bool-cases, ◌∷◌, false, ltb, inl, not, inr, is_empty, zero,
  refl, ◌<◌, ltb→lt, ap, true, nat_eq,
}
use gnosis.Core.Round.{
  process_qc, terminate_smvba, update_smvba_state, clean_smvba_state, update_prepare_state,
  update_high_qc,
}
use gnosis.Core.State.{Core, Env, ◌>>=◌, ◌>>◌, aggregate, pure, modify, continue, get}
use gnosis.Core.Preserve.{
  Preserves, Frame, Closed, View, view, is_vote, ◌▷◌, Preserves-modify, Preserves-get,
  Preserves-lift, Preserves-pure, Preserves-if, Preserves-Option,
}

view-process_qc : (qc : Qc) (s : Core) → view (process_qc qc s) ≡ view s
unfolding process_qc update_smvba_state update_prepare_state
view-process_qc qc s = elim (Bool-cases (ltb qc.height s.height)) [
  | inl old ↦ rw old (raise s)
  | inr new ↦ rw new (raise _)
]
  where
    raise : (t : Core) → view (update_high_qc qc t) ≡ view t
    raise t = elim (Bool-cases (ltb t.high_qc.height qc.height)) [
      | inl higher ↦ rw (higher, update_high_qc) refl
      | inr lower ↦ rw (lower, update_high_qc) refl
    ]

module _ {P : Core → Type 0} (f : Frame P) where
  -- An update outside the view.
  pub quiet : (g : Core → Core) → ((s : Core) → view (g s) ≡ view s) → Preserves P (modify g)
  quiet g same = Preserves-modify g (λ s h. f.frame s (g s) (same s) h)

  pub get_parent_block-Preserves : (b : Block) → Preserves P (get_parent_block b)
  unfolding get_parent_block
  get_parent_block-Preserves b =
      Preserves-get ▷ λ s. Preserves-if (qc_eq b.qc genesis_qc) (Preserves-pure _) (stored _)
    where
      stored :
          (o : Option Block)
          → Preserves P {A = Option Block} (elim o [
            | some b ↦ pure (some b)
            | none ↦ do modify (λ s. record s { synchronizer = b ∷ s.synchronizer }); pure none
          ])
      stored none = quiet _ (λ s. refl) ▷ λ _. Preserves-pure _
      stored (some p) = Preserves-pure _

  or_panic-Preserves : (o : Option Block) → Preserves P (or_panic o)
  unfolding or_panic
  or_panic-Preserves none = Preserves-lift _
  or_panic-Preserves (some b) = Preserves-pure _

  pub get_ancestors-Preserves : (b : Block) → Preserves P (get_ancestors b)
  unfolding get_ancestors
  get_ancestors-Preserves b = get_parent_block-Preserves b ▷ elim [
    | none ↦ Preserves-pure _
    | some b1 ↦ get_parent_block-Preserves b1 ▷ λ q. or_panic-Preserves q ▷ λ b0. Preserves-pure _
  ]

  module _ (env : Env) where
    pub mempool_verify-Preserves : (b : Block) (tag : ℕ) → Preserves P (mempool_verify env b tag)
    unfolding mempool_verify
    mempool_verify-Preserves b tag =
        quiet _ (λ s. refl) ▷ λ _. Preserves-get ▷ λ s. Preserves-lift _

    pub cleanup_par-Preserves : (b : Block) → Preserves P (cleanup_par env b)
    unfolding cleanup_par
    cleanup_par-Preserves b = quiet _ (λ s. refl)

    pub generate_proposal-Preserves :
        (h r : ℕ) (qc : Option Qc) (tag : ℕ) → Preserves P (generate_proposal env h r qc tag)
    unfolding generate_proposal
    generate_proposal-Preserves h r qc tag =
        quiet _ (λ s. refl) ▷ λ _. Preserves-get ▷ λ s. Preserves-pure _

    commit_loop-Preserves : (fuel : ℕ) (b : Block) → Preserves P (commit_loop env fuel b)
    unfolding commit_loop
    commit_loop-Preserves zero b = Preserves-lift _
    commit_loop-Preserves (suc fuel) b = Preserves-get ▷ λ s.
        Preserves-if (ltb s.last_committed_height b.height)
          (Preserves-if (not (is_empty b.payload)) (cleanup_par-Preserves b) (Preserves-pure _)
            ▷ λ _.
                get_parent_block-Preserves b
                ▷ elim [ none ↦ Preserves-pure _ | some p ↦ commit_loop-Preserves fuel p ])
          (Preserves-pure _)

    pub commit-Preserves : (b : Block) → Preserves P (commit env b)
    unfolding commit
    commit-Preserves b = commit_loop-Preserves env.chain_bound b

    pub store_block-Preserves : (b : Block) → Preserves P (modify (store_block env b))
    unfolding store_block
    store_block-Preserves b = quiet _ (λ s. refl)

  pub process_qc-Preserves : (qc : Qc) → Preserves P (modify (process_qc qc))
  process_qc-Preserves qc = quiet _ (view-process_qc qc)

  pub terminate_smvba-Preserves : (h : ℕ) → Preserves P (terminate_smvba h)
  unfolding terminate_smvba clean_smvba_state
  terminate_smvba-Preserves h = quiet _ (λ s. refl) ▷ λ _. Preserves-pure _

  pub aggregate-Preserves :
      {A : Type 0} (g : Aggregator → Aggregator × Outcome A) → Preserves P (aggregate g)
  unfolding aggregate
  aggregate-Preserves g = record { at = λ s h. f.frame s _ refl h }

-- `commit` leaves the view as it is.
view-Frame : (v : View) → Frame (λ s. view s ≡ v)
view-Frame v = record { frame = λ s t e h. e ∙ h }

module _ {P : Core → Type 0} (c : Closed P) where
  pub transmit-Preserves :
      (m : ConsensusMessage) (from : ℕ) (to : Option ℕ) (net : Net) (tag : ℕ)
      → is_vote m ≡ false
      → Preserves P (transmit m from to net tag)
  unfolding transmit
  transmit-Preserves m from to net tag other = Preserves-get ▷ λ s.
      Preserves-lift _ ▷ λ a. Preserves-modify _ (λ s h. c.send net (m, a) s other h)

  -- A delivery by a handler that has seen that the block is above the last one committed.
  pub deliver-at :
      (env : Env) (b : Block) (s : Core)
      → s.last_committed_height < b.height
      → P s
      → P (deliver env b s).1
  unfolding deliver ◌>>=◌ modify
  deliver-at env b s above h = let (r, s') = commit env b s in finish r s' same
    where
      same : view (commit env b s).1 ≡ view s
      same = (commit-Preserves (view-Frame (view s)) env b).at s refl

      finish :
          (r : Outcome (Unit {0})) (t : Core)
          → view t ≡ view s
          → P
              (continue r
                (λ _. do
                  modify (λ s. record s { last_committed_height = b.height })
                  modify (λ s. record s { commit_channel = b ∷ s.commit_channel }))
                t).1
      finish (ok _) t e =
          c.deliver b t (rw (ap (λ (v : View). v.last_committed_height) e) above)
            (c.framed.frame s t e h)
      finish (err _) t e = c.framed.frame s t e h
      finish panic t e = c.framed.frame s t e h
      finish out_of_fuel t e = c.framed.frame s t e h

  pub deliver_above-Preserves : (env : Env) (b : Block) → Preserves P (deliver_above env b)
  unfolding deliver_above ◌>>=◌ get pure
  deliver_above-Preserves env b = record {
    at = λ s h. elim (Bool-cases (ltb s.last_committed_height b.height)) [
      | inl above ↦ rw above (settle (deliver env b s) (deliver-at env b s (ltb→lt _ _ above) h))
      | inr below ↦ rw below h
    ];
  }
    where
      settle : (q : Outcome (Unit {0}) × Core) → P q.1 → P (continue q.0 (λ _. pure true) q.1).1
      settle (ok a, s) h = h
      settle (err e, s) h = h
      settle (panic, s) h = h
      settle (out_of_fuel, s) h = h

  pub handle_sync_request-Preserves :
      (digest : Digest) (sender : ℕ) → Preserves P (handle_sync_request digest sender)
  unfolding handle_sync_request
  handle_sync_request-Preserves digest sender = Preserves-get ▷ λ s.
      Preserves-Option (lookup digest s.store) (Preserves-pure _)
        (λ b. transmit-Preserves _ _ _ _ _ refl)
