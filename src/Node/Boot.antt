-- ===== src/Node/Boot.antt =====
-- How a node starts: Node::new of node/src/node.rs, with the types of node/src/config.rs. The data
-- store is empty at first.
pub mod Outcomes
use gnosis.Crypto.{PublicKey}
use gnosis.Prelude.{ℕ, Option, Bool, if◌then◌else◌, some, ◌==◌, [], true, nat_eq, false, none}
use gnosis.Node.Files.{
  FilePath, Files, Json, NodeResult, ok, err, NodeError, store_error, consensus_error,
  mempool_error, read, ◌>>=◌, panic,
}
use gnosis.Mempool.Error as MempoolError
use gnosis.Mempool.Error.{MempoolResult}
use gnosis.Mempool.Config as MempoolConfig
use gnosis.Mempool.State as MempoolState
use gnosis.Mempool.Start as MempoolStart
use gnosis.Core.Start
use gnosis.Config
use gnosis.Config.{SocketAddr}
use gnosis.Error
use gnosis.Error.{Outcome}
use gnosis.Core.Start.{Protocol, hot_stuff, hot_stuff_and_smvba, smvba, others, ConsensusTasks}
use gnosis.Mempool.Start.{MempoolTasks}
use gnosis.Crypto.Keys.{SignatureService, SecretKey}
use gnosis.Prelude.{ℕ, Bool, if◌then◌else◌, ◌==◌, nat_eq, Option}
use gnosis.Crypto.{PublicKey}

-- The types of node/src/config.rs.
pub record Parameters : Type 0 where
  pub consensus : Config.Parameters
  pub mempool : MempoolConfig.Parameters
  pub protocol : ℕ

abbrev pub default_parameters : Parameters
default_parameters = record {
  consensus = Config.default_parameters;
  mempool = MempoolConfig.default_parameters;
  protocol = 0;
}

pub record Secret : Type 0 where
  pub name : PublicKey
  pub secret : SecretKey

pub record Committee : Type 0 where
  pub consensus : Config.Committee
  pub mempool : MempoolConfig.Committee

-- SecretShare of crypto/src/lib.rs; the keys of threshold_crypto are opaque numbers.
pub record SecretShare : Type 0 where
  pub id : ℕ
  pub name : ℕ
  pub secret : ℕ
  pub pkset : ℕ

pub record Node : Type 0 where
  pub signature_service : SignatureService
  pub pk_set : ℕ
  pub mempool : MempoolTasks
  pub consensus : ConsensusTasks

-- `parameters.protocol` as a protocol.
unfoldable pub protocol_of : ℕ → Protocol
protocol_of protocol =
    if protocol == 0
    then hot_stuff
    else if protocol == 1
    then hot_stuff_and_smvba
    else if protocol == 2
    then smvba
    else others

-- What a node runs on: serde_json for each type, whether the data store opens, an address with its
-- IP set to 0.0.0.0, and the hash sets of the mempool.
pub record Machine : Type 0 where
  pub committee_json : Json Committee
  pub secret_json : Json Secret
  pub share_json : Json SecretShare
  pub parameters_json : Json Parameters
  pub opens : FilePath → Bool
  pub any_ip : SocketAddr → SocketAddr
  pub mempool_env : MempoolState.Env

-- `?` on a result of the mempool, and on one of the consensus, which needs no fuel here.
abbrev pub from_mempool : {A : Type 0} → MempoolResult A → NodeResult A
from_mempool (MempoolError.ok x) = ok x
from_mempool (MempoolError.err why) = err (mempool_error why)

abbrev pub from_consensus : {A : Type 0} → Outcome A → NodeResult A
from_consensus (Error.ok x) = ok x
from_consensus (Error.err why) = err (consensus_error why)
from_consensus Error.panic = panic
from_consensus Error.out_of_fuel = panic

module _ (machine : Machine) (files : Files) where
  open machine use {
    committee_json, secret_json, share_json, parameters_json, opens, any_ip, mempool_env,
  }

  unfoldable pub read_parameters : Option FilePath → NodeResult Parameters
  read_parameters none = ok default_parameters
  read_parameters (some file) = read parameters_json file files

  -- Store::new
  unfoldable pub open_store : FilePath → NodeResult (Unit {0})
  open_store path = if opens path then ok tt else err store_error

  -- Node::new
  unfoldable pub new :
      (committee_file key_file tss_file store_path : FilePath) → Option FilePath → NodeResult Node
  unfolding read_parameters open_store protocol_of
  new committee_file key_file tss_file store_path parameters_file = do
    committee ← read committee_json committee_file files
    secret ← read secret_json key_file files
    tss_keys ← read share_json tss_file files
    parameters ← read_parameters parameters_file
    opened ← open_store store_path
    mempool ←
        from_mempool
          (MempoolStart.run mempool_env any_ip secret.name committee.mempool parameters.mempool)
    consensus ← from_consensus (
        Start.run any_ip secret.name committee.consensus parameters.consensus
          (protocol_of parameters.protocol))
    ok (record {
      signature_service = record { secret = secret.secret; tss_secret = some tss_keys.secret };
      pk_set = tss_keys.pkset;
      mempool = mempool;
      consensus = consensus;
    })
