-- ===== src/Node/Deploy.antt =====
-- The subcommands of node/src/main.rs that make files, with what they call of node/src/node.rs:
-- the keys of a node, the shares of a threshold key, and a local testbed. threshold_crypto is a
-- parameter, as are the key pairs drawn. A node that the testbed spawns reads its files as they are
-- when it is spawned; what is written later are other files. Ports are numbers.
pub mod Testbed
use gnosis.Crypto.{PublicKey}
use gnosis.Node.Files.{FilePath, Files, Json, NodeResult, ok, err, panic, write, ◌>>=◌}
use gnosis.Node.Boot.{Machine, Secret, SecretShare, Committee, Node, new}
use gnosis.Config
use gnosis.Config.{SocketAddr}
use gnosis.Mempool.Config as MempoolConfig
use gnosis.Prelude.{
  nat_eq, pair_eq, ℕ, List, Bool, if◌then◌else◌, ◌∷◌, ◌/◌, length, ltb, ◌+◌, none, [],
}
use gnosis.Prelude.Map.{remove}
use gnosis.Prelude.Words.{sub64}

abbrev pub committee_json : FilePath
committee_json = (1, 0)

abbrev pub node_json : ℕ → FilePath
node_json i = (2, i)

abbrev pub db : ℕ → FilePath
db i = (3, i)

-- An address of the local host, which cannot be parsed if its port is no u16.
unfoldable pub localhost : ℕ → NodeResult SocketAddr
localhost port = if ltb port 65536 then ok port else panic

-- The entries of the two committees, from number i on.
unfoldable pub mempool_info :
    ℕ → List Secret → NodeResult (List (PublicKey × SocketAddr × SocketAddr))
unfolding localhost
mempool_info i [] = ok []
mempool_info i (key ∷ keys) = do
  front ← localhost (7000 + i)
  mempool ← localhost (7100 + i)
  rest ← mempool_info (i + 1) keys
  ok ((key.name, front, mempool) ∷ rest)

unfoldable pub consensus_info :
    ℕ → List Secret → NodeResult (List (PublicKey × ℕ × ℕ × SocketAddr × SocketAddr))
unfolding localhost
consensus_info i [] = ok []
consensus_info i (key ∷ keys) = do
  addresses ← localhost (7200 + i)
  smvba_addresses ← localhost (7300 + i)
  rest ← consensus_info (i + 1) keys
  ok ((key.name, 0, 1, addresses, smvba_addresses) ∷ rest)

unfoldable pub testbed_committee : List Secret → NodeResult Committee
unfolding mempool_info consensus_info
testbed_committee keys = do
  mempool ← mempool_info 0 keys
  consensus ← consensus_info 0 keys
  ok (record { consensus = Config.new consensus 1; mempool = MempoolConfig.new mempool 1 })

module _ (machine : Machine) (writable : FilePath → Bool) where
  -- The nodes from number i on: what comes of starting each.
  unfoldable pub spawn_all : ℕ → List Secret → Files → NodeResult (List (NodeResult Node)) × Files
  spawn_all i [] files = (ok [], files)
  spawn_all i (key ∷ keys) files =
      let (written, files') =
        write machine.secret_json writable key (node_json i) (remove (node_json i) files) in
      let node = new machine files' committee_json (node_json i) (node_json i) (db i) none in
      let (nodes, files'') = spawn_all (i + 1) keys files' in
      elim written [
        | ok u ↦ (nodes >>= λ rest. ok (node ∷ rest), files'')
        | err why ↦ (err why, files')
        | panic ↦ (panic, files')
      ]

  -- deploy_testbed
  unfoldable pub deploy_testbed : List Secret → Files → NodeResult (List (NodeResult Node)) × Files
  unfolding testbed_committee spawn_all
  deploy_testbed keys files = elim (testbed_committee keys) [
    | ok committee ↦
        let (written, files') =
          write machine.committee_json writable committee committee_json
            (remove committee_json files) in
        let spawned = spawn_all 0 keys files' in
        elim written [ ok u ↦ spawned | err why ↦ (err why, files') | panic ↦ (panic, files') ]
    | err why ↦ (err why, files)
    | panic ↦ (panic, files)
  ]

  -- Node::print_key_file, with the pair drawn.
  unfoldable pub print_key_file : Secret → FilePath → Files → NodeResult (Unit {0}) × Files
  print_key_file secret filename files = write machine.secret_json writable secret filename files

-- threshold_crypto: a set of keys of a threshold, drawn at random, its public set, and its shares.
pub record ThresholdCrypto : Type 1 where
  pub SecretKeySet : Type 0
  pub random : ℕ → SecretKeySet
  pub public_keys : SecretKeySet → ℕ
  pub secret_key_share : SecretKeySet → ℕ → ℕ
  pub public_key_share : ℕ → ℕ → ℕ

-- The threshold of the keys of so many nodes.
unfoldable pub threshold : ℕ → ℕ
threshold size = sub64 size 1 / 3

module _ (machine : Machine) (writable : FilePath → Bool) (crypto : ThresholdCrypto) where
  open crypto use {SecretKeySet, random, public_keys, secret_key_share, public_key_share}

  -- The shares from number id on.
  unfoldable pub write_shares :
      SecretKeySet → ℕ → List FilePath → Files → NodeResult (Unit {0}) × Files
  write_shares sk_set id [] files = (ok tt, files)
  write_shares sk_set id (filename ∷ filenames) files =
      let share : SecretShare = record {
        id = id;
        name = public_key_share (public_keys sk_set) id;
        secret = secret_key_share sk_set id;
        pkset = public_keys sk_set;
      } in
      let (written, files') = write machine.share_json writable share filename files in
      let rest = write_shares sk_set (id + 1) filenames files' in
      elim written [ ok u ↦ rest | err why ↦ (err why, files') | panic ↦ (panic, files') ]

  -- Node::print_threshold_key_file
  unfoldable pub print_threshold_key_file : List FilePath → Files → NodeResult (Unit {0}) × Files
  unfolding write_shares threshold
  print_threshold_key_file filenames files =
      write_shares (random (threshold (length filenames))) 0 filenames files
