-- ===== src/Error.antt =====
-- consensus/src/error.rs: the errors of the consensus, and the outcome of a fallible step. Besides
-- `Ok` and `Err` an outcome says that the task panicked, or that the model's fuel ran out.
use gnosis.Prelude.{ℕ, ◌≡◌, refl, Bool, true, false, List}

pub data ConsensusError : Type 0 where
  epoch_end : ℕ → ConsensusError
  network_error serialization_error store_error : ConsensusError
  not_in_committee : ℕ → ConsensusError
  spb_phase_wrong : ℕ → ℕ → ConsensusError
  invalid_fin_proof : ConsensusError
  invalid_signature : ConsensusError
  invalid_threshold_signature : ℕ → ConsensusError
  invalid_prepare_tag : ℕ → ConsensusError
  invalid_prepare_pes_qc : ℕ → ConsensusError
  timeout_message : ℕ → ℕ → ConsensusError
  random_coin_with_wrong_leader random_coin_with_wrong_shares : ConsensusError
  authority_reuse_in_qc : ℕ → ConsensusError
  authority_reuse_in_proof : ℕ → List ℕ → ConsensusError
  authority_reuse_in_prepare authority_reuse_in_tc authority_reuse_in_coin : ℕ → ConsensusError
  authority_reuse_in_spb unknown_authority : ℕ → ConsensusError
  qc_requires_quorum tc_requires_quorum random_coin_requires_quorum : ConsensusError
  spb_requires_quorum : ConsensusError
  malformed_block : ℕ → ConsensusError
  wrong_block_sender wrong_vote_recipient : ℕ → ℕ → ℕ → ConsensusError
  invalid_payload : ConsensusError
  non_consecutive_rounds : ℕ → ℕ → ℕ → ConsensusError

pub data Outcome (A : Type 0) : Type 0 where
  ok : A → Outcome A
  err : ConsensusError → Outcome A
  panic : Outcome A
  out_of_fuel : Outcome A

infixl 5 ◌>>=◌ ◌>>◌
abbrev pub ◌>>=◌ : {A B : Type 0} → Outcome A → (A → Outcome B) → Outcome B
ok x >>= next = next x
err why >>= next = err why
panic >>= next = panic
out_of_fuel >>= next = out_of_fuel

abbrev pub ◌>>◌ : {B : Type 0} → Outcome (Unit {0}) → Outcome B → Outcome B
r >> next = r >>= λ _. next

-- ensure!(condition, error)
abbrev pub ensure : Bool → ConsensusError → Outcome (Unit {0})
ensure true e = ok tt
ensure false e = err e

-- A bind that ends well, split in two.
pub >>=-eq-ok :
    {A B : Type 0} (r : Outcome A) (next : A → Outcome B) {y : B}
    → r >>= next ≡ ok y
    → (x : A) × (r ≡ ok x) × (next x ≡ ok y)
>>=-eq-ok (ok x) next e = (x, refl, e)
>>=-eq-ok (err _) next e = cc
>>=-eq-ok panic next e = cc
>>=-eq-ok out_of_fuel next e = cc

pub ensure-eq-ok : (b : Bool) (e : ConsensusError) {u : Unit {0}} → ensure b e ≡ ok u → b ≡ true
ensure-eq-ok true e h = refl
ensure-eq-ok false e h = cc
