-- ===== src/Core/Round.antt =====
-- Core::new, epoch_init and the bookkeeping of heights and rounds in consensus/src/core.rs.
use gnosis.Prelude.Words.{add64}
use gnosis.Config.{Committee, Parameters}
use gnosis.Prelude.Map.{insert, retain, Map, remove}
use gnosis.Messages.{Qc, genesis_qc, init_phase, Block}
use gnosis.Crypto.{PublicKey, Digest}
use gnosis.Prelude.{ℕ, Bool, if◌then◌else◌, not, max, false, [], ltb, none, ◌&&◌, nat_eq, pair_eq}
use Prim.Native.Nat.{ℕ, max}
use gnosis.Aggregator
use gnosis.Leader
use gnosis.Core.State.{Core, M, ◌>>◌, modify, done}

-- update_smvba_state
unfoldable pub update_smvba_state : ℕ → ℕ → Core → Core
update_smvba_state height round s =
    let k : ℕ × ℕ = (height, round) in
    record s {
      smvba_d_flag = insert k false s.smvba_d_flag;
      smvba_y_flag = insert k false s.smvba_y_flag;
      smvba_n_flag = insert k false s.smvba_n_flag;
      smvba_current_round = insert height round s.smvba_current_round;
      spb_current_phase = insert k init_phase s.spb_current_phase;
      smvba_dones = insert k [] s.smvba_dones;
      smvba_no_prevotes = insert k [] s.smvba_no_prevotes;
      smvba_votes = insert k [] s.smvba_votes;
      spb_abandon_flag = remove height s.spb_abandon_flag;
    }

-- update_prepare_state
unfoldable pub update_prepare_state : ℕ → Core → Core
update_prepare_state height s = record s {
  par_prepare_opts = insert height [] s.par_prepare_opts;
  par_prepare_pess = insert height [] s.par_prepare_pess;
}

-- clean_smvba_state
unfoldable pub clean_smvba_state : ℕ → Core → Core
clean_smvba_state height s = record s {
  smvba_d_flag = retain (λ k. ltb height k.0) s.smvba_d_flag;
  smvba_y_flag = retain (λ k. ltb height k.0) s.smvba_y_flag;
  smvba_n_flag = retain (λ k. ltb height k.0) s.smvba_n_flag;
  spb_current_phase = retain (λ k. ltb height k.0) s.spb_current_phase;
  smvba_current_round = retain (ltb height) s.smvba_current_round;
  spb_proposes = retain (λ k. ltb height k.0) s.spb_proposes;
  spb_finishs = retain (λ k. ltb height k.0) s.spb_finishs;
  spb_locks = retain (λ k. ltb height k.0) s.spb_locks;
  smvba_dones = retain (λ k. ltb height k.0) s.smvba_dones;
  smvba_votes = retain (λ k. ltb height k.0) s.smvba_votes;
  smvba_no_prevotes = retain (λ k. ltb height k.0) s.smvba_no_prevotes;
  aggregator =
      Aggregator.cleanup_spb_vote (Aggregator.cleanup_mvba_random s.aggregator height) height;
  prepare_tag = retain (ltb height) s.prepare_tag;
  par_prepare_opts = retain (ltb height) s.par_prepare_opts;
  par_prepare_pess = retain (ltb height) s.par_prepare_pess;
  spb_abandon_flag = retain (ltb height) s.spb_abandon_flag;
  fallback_high_qc = retain (λ k. ltb height k.0) s.fallback_high_qc;
}

-- Core::new; `store` is what an earlier run of the node left on disk.
unfoldable pub new_core :
    PublicKey → Committee → Parameters → Map Digest Block → (opt_path pes_path : Bool) → Core
unfolding update_smvba_state update_prepare_state
new_core name committee parameters store opt_path pes_path = update_prepare_state 1 (
    update_smvba_state 1 1 (record {
      name = name;
      committee = committee;
      parameters = parameters;
      store = store;
      leader_elector = Leader.new committee parameters.leader_window;
      mempool = [];
      synchronizer = [];
      network_filter = [];
      network_filter_smvba = [];
      commit_channel = [];
      height = 1;
      epoch = 0;
      last_voted_height = 0;
      last_committed_height = 0;
      fallback_is_invoke = [];
      unhandle_message = [];
      high_qc = genesis_qc;
      timer = none;
      aggregator = Aggregator.new committee;
      opt_path = opt_path;
      pes_path = pes_path;
      smvba_y_flag = [];
      smvba_n_flag = [];
      smvba_d_flag = [];
      spb_proposes = [];
      spb_finishs = [];
      spb_locks = [];
      spb_current_phase = [];
      spb_abandon_flag = [];
      smvba_halt_flag = [];
      smvba_dones = [];
      smvba_current_round = [];
      smvba_votes = [];
      smvba_no_prevotes = [];
      smvba_is_invoke = [];
      prepare_tag = [];
      par_prepare_opts = [];
      par_prepare_pess = [];
      fallback_length = parameters.fallback_length;
      fallback_high_qc = [];
    }))

-- epoch_init
unfoldable pub epoch_init : ℕ → Core → Core
unfolding update_smvba_state update_prepare_state
epoch_init epoch s = update_prepare_state 1 (
    update_smvba_state 1 1 (record s {
      leader_elector = Leader.new s.committee s.parameters.leader_window;
      aggregator = Aggregator.new s.committee;
      height = 1;
      epoch = epoch;
      high_qc = genesis_qc;
      timer = none;
      last_voted_height = 0;
      last_committed_height = 0;
      fallback_is_invoke = [];
      smvba_y_flag = [];
      smvba_n_flag = [];
      smvba_d_flag = [];
      spb_proposes = [];
      spb_finishs = [];
      spb_locks = [];
      spb_current_phase = [];
      spb_abandon_flag = [];
      smvba_halt_flag = [];
      smvba_current_round = [];
      smvba_dones = [];
      smvba_votes = [];
      smvba_no_prevotes = [];
      smvba_is_invoke = [];
      prepare_tag = [];
      par_prepare_opts = [];
      par_prepare_pess = [];
      fallback_high_qc = [];
    }))

-- increase_last_voted_round
unfoldable pub increase_last_voted_round : ℕ → Core → Core
increase_last_voted_round target s = record s { last_voted_height = max s.last_voted_height target }

-- update_high_qc
unfoldable pub update_high_qc : Qc → Core → Core
update_high_qc qc s = if ltb s.high_qc.height qc.height then record s { high_qc = qc } else s

-- advance_height
unfoldable pub advance_height : ℕ → Core → Core
advance_height height s =
    let next = add64 height 1 in
    let cleaned : Core = record s {
      aggregator = Aggregator.cleanup_hs_vote s.aggregator s.height;
      height = next;
    } in
    if ltb height s.height then s else update_smvba_state next 1 (update_prepare_state next cleaned)

-- process_qc
unfoldable pub process_qc : Qc → Core → Core
unfolding advance_height update_high_qc
process_qc qc s = update_high_qc qc (advance_height qc.height s)

-- terminate_smvba
unfoldable pub terminate_smvba : ℕ → M (Unit {0})
terminate_smvba height = do modify (clean_smvba_state height); done

-- is_optmistic
unfoldable pub is_optimistic : Core → Bool
is_optimistic s = not s.parameters.ddos && not s.parameters.random_ddos
