-- ===== src/Core/Start.antt =====
-- How the consensus starts: Consensus::run of consensus/src/consensus.rs, less the tasks of the
-- network and the filter, which have modules of their own, and the channels that connect them. The
-- data store is empty at first.
use gnosis.Crypto.{PublicKey}
use gnosis.Prelude.{Option, some, [], true, false, none}
use gnosis.Core.State.{Core}
use gnosis.Core.Round.{new_core}
use gnosis.Config.{SocketAddr, Committee, Parameters, address, smvba_address}
use gnosis.Error.{Outcome, ok, ◌>>=◌}

-- consensus/src/config.rs
pub data Protocol : Type 0 where
  hot_stuff hot_stuff_and_smvba smvba others : Protocol

-- Protocol::default
abbrev pub default_protocol : Protocol
default_protocol = hot_stuff_and_smvba

-- What Consensus::run starts: two receivers and, but for an undefined protocol, the core.
pub record ConsensusTasks : Type 0 where
  pub address : SocketAddr
  pub smvba_address : SocketAddr
  pub core : Option Core

-- The core made for each protocol.
unfoldable pub core_of : Protocol → PublicKey → Committee → Parameters → Option Core
core_of hot_stuff name committee parameters =
    some (new_core name committee parameters [] true false)
core_of hot_stuff_and_smvba name committee parameters =
    some (new_core name committee parameters [] true true)
core_of smvba name committee parameters = some (new_core name committee parameters [] false true)
core_of others name committee parameters = none

-- Consensus::run, where `any_ip` sets the IP of an address to 0.0.0.0.
unfoldable pub run :
    (any_ip : SocketAddr → SocketAddr)
    → PublicKey
    → Committee
    → Parameters
    → Protocol
    → Outcome ConsensusTasks
unfolding core_of
run any_ip name committee parameters protocol = do
  listening ← address committee name
  smvba_listening ← smvba_address committee name
  ok (record {
    address = any_ip listening;
    smvba_address = any_ip smvba_listening;
    core = core_of protocol name committee parameters;
  })
