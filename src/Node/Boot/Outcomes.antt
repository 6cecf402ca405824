-- ===== src/Node/Boot/Outcomes.antt =====
-- What comes of starting a node whose files can be read (node/src/node.rs).
use gnosis.Error.{Outcome}
use gnosis.Mempool.Start.{MempoolTasks}
use gnosis.Mempool.Error.{MempoolResult}
use gnosis.Config.{others, SocketAddr}
use gnosis.Crypto.{PublicKey}
use gnosis.Node.Files.{FilePath, Files, ok, err, mempool_error, consensus_error, read}
use gnosis.Node.Boot.{
  Machine, new, read_parameters, open_store, Committee, Secret, SecretShare, Parameters, Node,
  protocol_of,
}
use gnosis.Core.State.{Core}
use gnosis.Core.Start.{core_of, ConsensusTasks}
use gnosis.Core.Round.{new_core, update_smvba_state, update_prepare_state}
use gnosis.Config
use gnosis.Prelude.{
  nat_eq, ℕ, Bool, Option, true, [], ◌≤◌, false, ◌≡◌, arith, some, suc, refl, zero, not, ◌==◌, ◌<◌,
  none, ap, Option-cases, inl, inr,
}
use gnosis.Prelude.Map.{contains_key, lookup}
use gnosis.Mempool.Config as MempoolConfig
use gnosis.Mempool.Start as MempoolStart
use gnosis.Mempool.State as MempoolState
use gnosis.Core.Start
use gnosis.Error
use gnosis.Mempool.Error as MempoolError

new_core-paths :
    (name : PublicKey) (committee : Config.Committee) (parameters : Config.Parameters) (o q : Bool)
    → ((new_core name committee parameters [] o q).opt_path ≡ o)
      × ((new_core name committee parameters [] o q).pes_path ≡ q)
      × ((new_core name committee parameters [] o q).name ≡ name)
unfolding new_core update_smvba_state update_prepare_state
new_core-paths name committee parameters o q = (refl, refl, refl)

-- The core that runs for a protocol's number: 0 has the optimistic path alone, 1 has both, 2 has the
-- pessimistic path alone.
abbrev pub RunsProtocol : ℕ → PublicKey → Option Core → Type 0
RunsProtocol protocol name core =
    (protocol ≤ 2
      → (c : Core) × (core ≡ some c)
        × (c.opt_path ≡ not (protocol == 2))
        × (c.pes_path ≡ not (protocol == 0))
        × (c.name ≡ name))
    × (2 < protocol → core ≡ none)

undefined : (protocol : ℕ) → 2 < protocol → protocol_of protocol ≡ Start.others
unfolding protocol_of
undefined protocol h = ground (arith, h)

core_of-RunsProtocol :
    (protocol : ℕ) (name : PublicKey) (committee : Config.Committee)
    (parameters : Config.Parameters)
    → RunsProtocol protocol name (core_of (protocol_of protocol) name committee parameters)
unfolding core_of protocol_of
core_of-RunsProtocol zero name committee parameters =
    let (o, q, n) = new_core-paths name committee parameters true false in
    (λ h. (_, refl, o, q, n), λ h. absurd (omega arith))
core_of-RunsProtocol (suc zero) name committee parameters =
    let (o, q, n) = new_core-paths name committee parameters true true in
    (λ h. (_, refl, o, q, n), λ h. absurd (omega arith))
core_of-RunsProtocol (suc (suc zero)) name committee parameters =
    let (o, q, n) = new_core-paths name committee parameters false true in
    (λ h. (_, refl, o, q, n), λ h. absurd (omega arith))
core_of-RunsProtocol (suc (suc (suc n))) name committee parameters =
    (λ h. absurd (omega arith), λ h. ap (λ p. core_of p name committee parameters) (undefined _ h))

mempool_run-outcomes :
    (env : MempoolState.Env) (any_ip : SocketAddr → SocketAddr) (name : PublicKey)
    (c : MempoolConfig.Committee) (p : MempoolConfig.Parameters)
    → (contains_key name c.authorities ≡ false
        → MempoolStart.run env any_ip name c p
          ≡ MempoolError.err (MempoolError.not_in_committee name))
      × (contains_key name c.authorities ≡ true
          → (m : MempoolTasks) × (MempoolStart.run env any_ip name c p ≡ MempoolError.ok m))
unfolding MempoolStart.run MempoolConfig.front_address MempoolConfig.mempool_address
mempool_run-outcomes env any_ip name c p = elim (Option-cases (lookup name c.authorities)) [
  | inl absent ↦
      rw (absent, MempoolStart.run, MempoolConfig.front_address) (λ h. refl, λ h. ground (arith, h))
  | inr (a, found) ↦
      rw (found, MempoolStart.run, MempoolConfig.front_address, MempoolConfig.mempool_address)
        (λ h. ground (arith, h), λ h. (_, refl))
]

consensus_run-outcomes :
    (any_ip : SocketAddr → SocketAddr) (name : PublicKey) (c : Config.Committee)
    (p : Config.Parameters) (protocol : ℕ)
    → (contains_key name c.authorities ≡ false
        → Start.run any_ip name c p (protocol_of protocol)
          ≡ Error.err (Error.not_in_committee name))
      × (contains_key name c.authorities ≡ true
          → (t : ConsensusTasks) × (Start.run any_ip name c p (protocol_of protocol) ≡ Error.ok t)
            × RunsProtocol protocol name t.core)
unfolding Start.run Config.address Config.smvba_address
consensus_run-outcomes any_ip name c p protocol = elim (Option-cases (lookup name c.authorities)) [
  | inl absent ↦ rw (absent, Start.run, Config.address) (λ h. refl, λ h. ground (arith, h))
  | inr (a, found) ↦
      rw (found, Start.run, Config.address, Config.smvba_address)
        (λ h. ground (arith, h), λ h. (_, refl, core_of-RunsProtocol protocol name c p))
]

-- A node whose four files can be read and whose data store opens ends in one of three ways. If its key is not in
-- the mempool's committee, it ends with that error of the mempool; if it is there and not in the
-- committee of the consensus, with that error of the consensus; and if it is in both, it boots, with the
-- core that the protocol's number asks for: of the optimistic path alone for 0, of both for
-- 1, of the pessimistic path alone for 2, and with no core, and no error, for a higher number.
pub new_outcomes :
    (machine : Machine) (files : Files) (committee_file key_file tss_file store_path : FilePath)
    (parameters_file : Option FilePath) (c : Committee) (s : Secret) (t : SecretShare)
    (p : Parameters)
    → read machine.committee_json committee_file files ≡ ok c
    → read machine.secret_json key_file files ≡ ok s
    → read machine.share_json tss_file files ≡ ok t
    → read_parameters machine files parameters_file ≡ ok p
    → machine.opens store_path ≡ true
    → let result = new machine files committee_file key_file tss_file store_path parameters_file in
      let in_mempool = contains_key s.name c.mempool.authorities in
      let in_consensus = contains_key s.name c.consensus.authorities in
      (in_mempool ≡ false → result ≡ err (mempool_error (MempoolError.not_in_committee s.name)))
      × (in_mempool ≡ true
          → in_consensus ≡ false
          → result ≡ err (consensus_error (Error.not_in_committee s.name)))
      × (in_mempool ≡ true
          → in_consensus ≡ true
          → (node : Node) × (result ≡ ok node) × RunsProtocol p.protocol s.name node.consensus.core)
unfolding new
new_outcomes machine files committee_file key_file tss_file store_path parameters_file c s t p hc hs
      ht hp ho =
    let m = mempool_run-outcomes machine.mempool_env machine.any_ip s.name c.mempool p.mempool in
    let k = consensus_run-outcomes machine.any_ip s.name c.consensus p.consensus p.protocol in
    rw (hc, hs, ht, hp, ho, new, open_store)
      (
        λ absent. rw (m.0 absent) refl,
        λ present absent. rw ((m.1 present).1, k.0 absent) refl,
        λ present both. rw ((m.1 present).1, (k.1 both).1) (_, refl, (k.1 both).2),
      )
