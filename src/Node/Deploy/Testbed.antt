-- ===== src/Node/Deploy/Testbed.antt =====
-- What becomes of the nodes of a local testbed (node/src/main.rs).
use gnosis.Node.Deploy.{
  spawn_all, deploy_testbed, testbed_committee, mempool_info, consensus_info, localhost,
  committee_json, node_json, db,
}
use gnosis.Node.Files.{
  FilePath, Files, IsJson, NodeResult, ok, err, read_error, write, newline, is_blank,
}
use gnosis.Node.Boot.{Machine, Secret, Committee, Node, new}
use gnosis.Node.Files.Export.{write-fresh, write-other, read-from_slice, write-ok}
use gnosis.Prelude.{
  nat_eq, pair_eq, Bool, true, ℕ, List, [], ◌∷◌, ◌<◌, ◌+◌, ◌≡◌, length, arith, ◌≤◌, refl, ◌++◌,
  none, some, ◌∙◌,
}
use gnosis.Config
use gnosis.Mempool.Config as MempoolConfig
use gnosis.Prelude.Map.{lookup, remove, lookup-remove}

-- Each of the nodes fails to read its own file of keys.
unfoldable pub unreadable : ℕ → List Secret → List (NodeResult Node)
unreadable i [] = []
unreadable i (key ∷ keys) = err (read_error (node_json i)) ∷ unreadable (i + 1) keys

localhost-ok : (port : ℕ) → port < 65536 → localhost port ≡ ok port
unfolding localhost
localhost-ok port h = ground (arith, h)

mempool_info-ok :
    (i : ℕ) (keys : List Secret)
    → 7100 + i + length keys ≤ 65536
    → (info : _) × (mempool_info i keys ≡ ok info)
unfolding mempool_info
mempool_info-ok i [] h = ([], refl)
mempool_info-ok i (key ∷ keys) h =
    let (rest, e) = mempool_info-ok (i + 1) keys (omega (arith, h)) in
    (
      (key.name, 7000 + i, 7100 + i) ∷ rest,
      rw (localhost-ok (7000 + i) (omega (arith, h)), localhost-ok (7100 + i) (omega (arith, h)), e)
          refl,
    )

consensus_info-ok :
    (i : ℕ) (keys : List Secret)
    → 7300 + i + length keys ≤ 65536
    → (info : _) × (consensus_info i keys ≡ ok info)
unfolding consensus_info
consensus_info-ok i [] h = ([], refl)
consensus_info-ok i (key ∷ keys) h =
    let (rest, e) = consensus_info-ok (i + 1) keys (omega (arith, h)) in
    (
      (key.name, 0, 1, 7200 + i, 7300 + i) ∷ rest,
      rw (localhost-ok (7200 + i) (omega (arith, h)), localhost-ok (7300 + i) (omega (arith, h)), e)
          refl,
    )

removed : (path : FilePath) (files : Files) → lookup path (remove path files) ≡ none
removed path files = lookup-remove path path files ∙ rw ((pair_eq.beq_iff path path).1 refl) refl

module _ (machine : Machine) (writable : FilePath → Bool)
    (opens : (path : FilePath) → writable path ≡ true) (secret_laws : IsJson machine.secret_json)
    (no_share : (s : Secret)
      → machine.share_json.from_slice (machine.secret_json.to_string_pretty s ++ newline ∷ [])
        ≡ none) where
  -- A node whose file of keys is given for its share, too.
  new-unreadable :
      (c : Committee) (s : Secret) (i : ℕ) (files : Files)
      → machine.committee_json.from_slice
          (machine.committee_json.to_string_pretty c ++ newline ∷ [])
        ≡ some c
      → lookup committee_json files
        ≡ some (machine.committee_json.to_string_pretty c ++ newline ∷ [])
      → lookup (node_json i) files ≡ some (machine.secret_json.to_string_pretty s ++ newline ∷ [])
      → new machine files committee_json (node_json i) (node_json i) (db i) none
        ≡ err (read_error (node_json i))
  unfolding new is_blank
  new-unreadable c s i files reads hc hs =
      rw
        (
          read-from_slice machine.committee_json committee_json files _ hc,
          reads,
          read-from_slice machine.secret_json (node_json i) files _ hs,
          secret_laws.reads s (newline ∷ []) refl,
          read-from_slice machine.share_json (node_json i) files _ hs,
          no_share s,
          new,
        )
        refl

  spawn_all-unreadable :
      (c : Committee) (i : ℕ) (keys : List Secret) (files : Files)
      → machine.committee_json.from_slice
          (machine.committee_json.to_string_pretty c ++ newline ∷ [])
        ≡ some c
      → lookup committee_json files
        ≡ some (machine.committee_json.to_string_pretty c ++ newline ∷ [])
      → (spawn_all machine writable i keys files).0 ≡ ok (unreadable i keys)
  unfolding spawn_all unreadable
  spawn_all-unreadable c i [] files reads hc = refl
  spawn_all-unreadable c i (key ∷ keys) files reads hc =
      let before = remove (node_json i) files in
      let after = (write machine.secret_json writable key (node_json i) before).1 in
      let own : lookup (node_json i) after
          ≡ some (machine.secret_json.to_string_pretty key ++ newline ∷ []) =
        write-fresh machine.secret_json writable key (node_json i) before (opens (node_json i))
          (removed (node_json i) files) in
      let kept =
        write-other machine.secret_json writable key (node_json i) committee_json before refl
        ∙ lookup-remove (node_json i) committee_json files
        ∙ hc in
      rw
        (
          spawn_all,
          write-ok machine.secret_json writable key (node_json i) before (opens (node_json i)),
          new-unreadable c key i after reads kept own,
          spawn_all-unreadable c (i + 1) keys after reads kept,
        )
        refl

-- The testbed is deployed, and none of its nodes boots: each ends since its file of keys, which is
-- given for its threshold share as well, cannot be read as one. The files must be writable, the last
-- port be a u16, serde_json do what it documents, which for the committee means that it is read
-- back, and refuse a pair of keys where a threshold share is read.
pub deploy_testbed-unreadable :
    (machine : Machine) (writable : FilePath → Bool) (keys : List Secret) (files : Files)
    → ((path : FilePath) → writable path ≡ true)
    → ((c : Committee)
        → testbed_committee keys ≡ ok c
        → machine.committee_json.from_slice
            (machine.committee_json.to_string_pretty c ++ newline ∷ [])
          ≡ some c)
    → IsJson machine.secret_json
    → ((s : Secret)
        → machine.share_json.from_slice (machine.secret_json.to_string_pretty s ++ newline ∷ [])
          ≡ none)
    → 7300 + length keys ≤ 65536
    → (deploy_testbed machine writable keys files).0 ≡ ok (unreadable 0 keys)
unfolding deploy_testbed
deploy_testbed-unreadable machine writable keys files opens committee_read secret_laws no_share
      ports =
    let (mempool, m) = mempool_info-ok 0 keys (omega (arith, ports)) in
    let (consensus, k) = consensus_info-ok 0 keys (omega (arith, ports)) in
    let committee : Committee = record {
      consensus = Config.new consensus 1;
      mempool = MempoolConfig.new mempool 1;
    } in
    let before = remove committee_json files in
    let after = (write machine.committee_json writable committee committee_json before).1 in
    rw
      (
        deploy_testbed,
        testbed_committee,
        m,
        k,
        write-ok machine.committee_json writable committee committee_json before
            (opens committee_json),
      )
      (spawn_all-unreadable machine writable opens secret_laws no_share committee 0 keys after
        (committee_read committee (rw (testbed_committee, m, k) refl))
        (write-fresh machine.committee_json writable committee committee_json before
          (opens committee_json) (removed committee_json files)))
