-- ===== src/Core/State.antt =====
-- The state of `Core` in consensus/src/core.rs and its effects. A handler is an action on the
-- state: it returns an outcome, and what it wrote before an error stays written. Channels are lists
-- of what was sent, the newest first; the store maps digests to blocks. The mempool answers by a
-- function of all that was asked of it.
use gnosis.Error.{Outcome, ok, ConsensusError, err, ensure, panic, out_of_fuel}
use gnosis.Prelude.Map.{Map}
use gnosis.Prelude.{ℕ, List, Bool, Option, ◌≡◌, refl}
use Prim.Native.Nat.{ℕ}
use gnosis.Aggregator.{Aggregator}
use gnosis.Leader.{LeaderElector}
use gnosis.Config.{Committee, Parameters, SocketAddr}
use gnosis.Crypto.{Crypto, PublicKey, Signature, Digest}
use gnosis.Messages.{Block, Qc, SpbValue, SpbProof, PrePare, ConsensusMessage}

-- consensus/src/mempool.rs
pub data PayloadStatus : Type 0 where
  accept reject wait : PayloadStatus

pub data ConsensusMempoolMessage : Type 0 where
  get_payload : (max tag : ℕ) → ConsensusMempoolMessage
  verify_payload : Block → (tag : ℕ) → ConsensusMempoolMessage
  cleanup : List Digest → (height : ℕ) → ConsensusMempoolMessage

-- What the node runs against: the cryptography, the mempool's answers to the last of the messages,
-- and a bound on the blocks that `commit` walks through.
pub record Env : Type 0 where
  pub crypto : Crypto
  pub payload : List ConsensusMempoolMessage → List Digest
  pub status : List ConsensusMempoolMessage → PayloadStatus
  pub chain_bound : ℕ

abbrev pub FilterInput : Type 0
FilterInput = ConsensusMessage × List SocketAddr

abbrev pub Proposals : Type 0
Proposals = Map PublicKey (SpbValue × SpbProof)

pub record Core : Type 0 where
  pub name : PublicKey
  pub committee : Committee
  pub parameters : Parameters
  pub store : Map Digest Block
  pub leader_elector : LeaderElector
  pub mempool : List ConsensusMempoolMessage
  pub synchronizer : List Block
  pub network_filter : List FilterInput
  pub network_filter_smvba : List FilterInput
  pub commit_channel : List Block
  pub height : ℕ
  pub epoch : ℕ
  pub last_voted_height : ℕ
  pub last_committed_height : ℕ
  pub fallback_is_invoke : Map ℕ Bool
  pub unhandle_message : List (ℕ × ConsensusMessage)
  pub high_qc : Qc
  -- The delay that the timer runs for, if it is set.
  pub timer : Option ℕ
  pub aggregator : Aggregator
  pub opt_path : Bool
  pub pes_path : Bool
  pub smvba_y_flag : Map (ℕ × ℕ) Bool
  pub smvba_n_flag : Map (ℕ × ℕ) Bool
  pub smvba_d_flag : Map (ℕ × ℕ) Bool
  pub spb_proposes : Map (ℕ × ℕ) SpbValue
  pub spb_finishs : Map (ℕ × ℕ) Proposals
  pub spb_locks : Map (ℕ × ℕ) Proposals
  pub spb_current_phase : Map (ℕ × ℕ) ℕ
  pub spb_abandon_flag : Map ℕ Bool
  pub smvba_halt_flag : Map ℕ Bool
  pub smvba_dones : Map (ℕ × ℕ) (List PublicKey)
  pub smvba_current_round : Map ℕ ℕ
  pub smvba_votes : Map (ℕ × ℕ) (List PublicKey)
  pub smvba_no_prevotes : Map (ℕ × ℕ) (List PublicKey)
  pub smvba_is_invoke : Map ℕ Bool
  pub prepare_tag : Map ℕ PrePare
  pub par_prepare_opts : Map ℕ (Map PublicKey Signature)
  pub par_prepare_pess : Map ℕ (Map PublicKey Signature)
  pub fallback_length : ℕ
  pub fallback_high_qc : Map (ℕ × ℕ) (Option Qc)

abbrev pub M : Type 0 → Type 0
M A = Core → Outcome A × Core

abbrev pub continue : {A B : Type 0} → Outcome A → (A → M B) → M B
continue (ok a) f s = f a s
continue (err e) f s = (err e, s)
continue panic f s = (panic, s)
continue out_of_fuel f s = (out_of_fuel, s)

infixl 5 ◌>>=◌ ◌>>◌
unfoldable pub ◌>>=◌ : {A B : Type 0} → M A → (A → M B) → M B
◌>>=◌ m f s = let (r, s') = m s in continue r f s'

abbrev pub ◌>>◌ : {B : Type 0} → M (Unit {0}) → M B → M B
m >> k = m >>= λ _. k

unfoldable pub pure : {A : Type 0} → A → M A
pure a s = (ok a, s)

-- `Ok(())`
abbrev pub done : M (Unit {0})
done = pure tt

unfoldable pub lift : {A : Type 0} → Outcome A → M A
lift r s = (r, s)

abbrev pub fail : {A : Type 0} → ConsensusError → M A
fail e = lift (err e)

abbrev pub guard : Bool → ConsensusError → M (Unit {0})
guard b e = lift (ensure b e)

unfoldable pub get : M Core
get s = (ok s, s)

unfoldable pub modify : (Core → Core) → M (Unit {0})
modify f s = (ok tt, f s)

-- An operation of the aggregator, whose new state is kept also where it returns an error.
unfoldable pub aggregate : {A : Type 0} → (Aggregator → Aggregator × Outcome A) → M A
aggregate f s = let (a, r) = f s.aggregator in (r, record s { aggregator = a })

-- `expect`: an error becomes a panic.
panic_on_err : {A : Type 0} → Outcome A → Outcome A
panic_on_err (ok a) = ok a
panic_on_err (err e) = panic
panic_on_err panic = panic
panic_on_err out_of_fuel = out_of_fuel

unfoldable pub expect : {A : Type 0} → M A → M A
unfolding panic_on_err
expect m s = let (r, s') = m s in (panic_on_err r, s')

-- `let _ =`: an error is dropped.
forget_err : Outcome (Unit {0}) → Outcome (Unit {0})
forget_err (ok a) = ok tt
forget_err (err e) = ok tt
forget_err panic = panic
forget_err out_of_fuel = out_of_fuel

unfoldable pub ignore : M (Unit {0}) → M (Unit {0})
unfolding forget_err
ignore m s = let (r, s') = m s in (forget_err r, s')

-- A bind after an action whose result is known.
pub >>=-ok :
    {A B : Type 0} (m : M A) (f : A → M B) {s t : Core} {a : A}
    → m s ≡ (ok a, t)
    → (m >>= f) s ≡ f a t
unfolding ◌>>=◌
>>=-ok m f e = rw e refl
