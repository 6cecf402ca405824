-- ===== src/Mempool/State.antt =====
-- The state of `Core` in mempool/src/core.rs and its effects. What a handler wrote before an error
-- stays written; channels are lists of what was sent, the oldest first. The store is
-- the one of the node, which the consensus shares.
use gnosis.Config.{SocketAddr}
use gnosis.Messages.{Block}
use gnosis.Prelude.Map.{Map, mem}
use gnosis.Crypto.{Crypto, PublicKey, Digest}
use gnosis.Prelude.{ℕ, List, Bool, ◌≤◌, ◌≡◌, nat_eq, Option}
use gnosis.Mempool.Error.{MempoolResult, MempoolError, ensure, ok, err}
use gnosis.Mempool.Config.{Committee, Parameters}
use gnosis.Mempool.Payload.{Payload, Runner}

pub data MempoolMessage : Type 0 where
  own_payload : Payload → MempoolMessage
  payload : Payload → MempoolMessage
  payload_request : List Digest → PublicKey → MempoolMessage

-- The messages to the task of the synchronizer: missing payloads of a block, or a height to clean.
pub data SynchronizerMessage : Type 0 where
  sync : List Digest → Block → (tag : ℕ) → SynchronizerMessage
  clean : (round : ℕ) → SynchronizerMessage

-- What is stored under a digest, as bytes: a payload, or a block of the consensus.
pub data Entry : Type 0 where
  payload_entry : Payload → Entry
  block_entry : Block → Entry

-- What the mempool runs against: the cryptography, what bincode makes of the bytes of a block that are
-- read as a payload, and `HashSet`, of which the capacity after
-- `with_capacity`, the capacity after an insertion to a length, and the order of iteration are left
-- open by its documentation.
pub record Env : Type 0 where
  pub crypto : Crypto
  pub payload_in : Block → Option Payload
  pub with_capacity : ℕ → ℕ
  pub reserve : (capacity length : ℕ) → ℕ
  pub iter : List Digest → List Digest

-- What is documented of them.
pub record IsHashSet (env : Env) : Type 0 where
  pub keeps : (capacity n : ℕ) → n ≤ capacity → env.reserve capacity n ≡ capacity
  pub mem-iter : (d : Digest) (queue : List Digest) → mem d (env.iter queue) ≡ mem d queue

pub record Core : Type 0 where
  pub name : PublicKey
  pub committee : Committee
  pub parameters : Parameters
  pub store : Map Digest Entry
  pub synchronizer : List SynchronizerMessage
  pub payload_maker : Runner
  pub network_channel : List (MempoolMessage × List SocketAddr)
  pub opt_queue : List Digest
  pub pes_queue : List Digest
  pub opt_capacity : ℕ
  pub pes_capacity : ℕ

abbrev pub M : Type 0 → Type 0
M A = Core → MempoolResult A × Core

abbrev pub continue : {A B : Type 0} → MempoolResult A → (A → M B) → M B
continue (ok a) next s = next a s
continue (err why) next s = (err why, s)

infixl 5 ◌>>=◌ ◌>>◌
unfoldable pub ◌>>=◌ : {A B : Type 0} → M A → (A → M B) → M B
◌>>=◌ m next s = let (r, s') = m s in continue r next s'

abbrev pub ◌>>◌ : {B : Type 0} → M (Unit {0}) → M B → M B
m >> next = m >>= λ _. next

unfoldable pub pure : {A : Type 0} → A → M A
pure a s = (ok a, s)

abbrev pub done : M (Unit {0})
done = pure tt

unfoldable pub lift : {A : Type 0} → MempoolResult A → M A
lift r s = (r, s)

abbrev pub guard : Bool → MempoolError → M (Unit {0})
guard b why = lift (ensure b why)

unfoldable pub get : M Core
get s = (ok s, s)

unfoldable pub modify : (Core → Core) → M (Unit {0})
modify f s = (ok tt, f s)
