-- ===== src/Tests/Boot.antt =====
-- Examples about the start of nodes, with toy encodings in place of serde_json.
use gnosis.Node.Files.{
  read, Files, Json, IsJson, NodeResult, ok, err, is_blank, newline, given, mempool_error,
  consensus_error,
}
use gnosis.Node.Boot.{
  Machine, Node, Secret, SecretShare, Committee, default_parameters, new, read_parameters,
}
use gnosis.Node.Boot.Outcomes.{new_outcomes, RunsProtocol}
use gnosis.Node.Deploy.{
  deploy_testbed, testbed_committee, committee_json, node_json, db, mempool_info, consensus_info,
  localhost,
}
use gnosis.Node.Deploy.Testbed.{deploy_testbed-unreadable, unreadable}
use gnosis.Network.{Bytes}
use gnosis.Tests.Toy.{toy}
use gnosis.Prelude.{
  pair_eq, nat_eq, ◌∷◌, Option, List, none, ◌≡◌, true, [], if◌then◌else◌, false, some, ◌==◌, ap,
  arith, refl,
}
use gnosis.Prelude.Map.{lookup, contains_key}
use gnosis.Config
use gnosis.Error
use gnosis.Mempool.Config as MempoolConfig
use gnosis.Mempool.Error as MempoolError

abbrev secret_text : Secret → Bytes
secret_text s = 123 ∷ s.name ∷ s.secret ∷ 125 ∷ []

parse_secret : Bytes → Option Secret
parse_secret (a ∷ name ∷ secret ∷ b ∷ tail) =
    if is_blank tail then some (record { name = name; secret = secret }) else none
parse_secret _ = none

abbrev secret_json : Json Secret
secret_json = record { to_string_pretty = secret_text; from_slice = parse_secret }

secret_json-IsJson : IsJson secret_json
unfolding parse_secret
secret_json-IsJson = record {
  reads = λ v tail h. rw h refl;
  refuses = λ v tail h. rw h refl;
  ends = λ v. (123 ∷ v.name ∷ v.secret ∷ [], refl);
}

abbrev share : SecretShare
share = record { id = 0; name = 4; secret = 3; pkset = 2 }

-- A share is the one above, and its text begins with a bracket.
parse_share : Bytes → Option SecretShare
parse_share [] = none
parse_share (b ∷ bytes) = if b == 91 then some share else none

abbrev two_keys : List Secret
two_keys = record { name = 11; secret = 5 } ∷ record { name = 12; secret = 6 } ∷ []

abbrev committee : Committee
committee = record {
  consensus = Config.new ((11, 0, 1, 7200, 7300) ∷ (12, 0, 1, 7201, 7301) ∷ []) 1;
  mempool = MempoolConfig.new ((11, 7000, 7100) ∷ (12, 7001, 7101) ∷ []) 1;
}

abbrev machine : Machine
machine = record {
  committee_json = record {
    to_string_pretty = λ c. 123 ∷ 125 ∷ [];
    from_slice = λ bytes. some committee;
  };
  secret_json = secret_json;
  share_json = record { to_string_pretty = λ s. 91 ∷ 93 ∷ []; from_slice = parse_share };
  parameters_json = record {
    to_string_pretty = λ p. 123 ∷ 125 ∷ [];
    from_slice = λ bytes. some default_parameters;
  };
  opens = λ path. true;
  any_ip = λ a. a;
  mempool_env = record {
    crypto = toy;
    payload_in = λ b. none;
    with_capacity = λ n. n;
    reserve = λ c n. c;
    iter = λ q. q;
  };
}

-- A committee, a pair of keys and a share.
abbrev files : Files
files =
    (committee_json, 123 ∷ 125 ∷ newline ∷ [])
    ∷ (node_json 0, 123 ∷ 11 ∷ 5 ∷ 125 ∷ newline ∷ [])
    ∷ (given 5, 91 ∷ 93 ∷ newline ∷ [])
    ∷ []

abbrev started : NodeResult Node
started = new machine files committee_json (node_json 0) (given 5) (db 0) none

new_outcomes_example :
    (contains_key 11 committee.mempool.authorities ≡ false
      → started ≡ err (mempool_error (MempoolError.not_in_committee 11)))
    × (contains_key 11 committee.mempool.authorities ≡ true
        → contains_key 11 committee.consensus.authorities ≡ false
        → started ≡ err (consensus_error (Error.not_in_committee 11)))
    × (contains_key 11 committee.mempool.authorities ≡ true
        → contains_key 11 committee.consensus.authorities ≡ true
        → (n : Node) × (started ≡ ok n) × RunsProtocol 0 11 n.consensus.core)
unfolding parse_secret parse_share lookup is_blank read read_parameters
new_outcomes_example =
    new_outcomes machine files committee_json (node_json 0) (given 5) (db 0) none committee
      (record { name = 11; secret = 5 }) share default_parameters refl refl refl refl refl

same_committee : (c : Committee) → testbed_committee two_keys ≡ ok c → some committee ≡ some c
unfolding testbed_committee mempool_info consensus_info localhost
same_committee c e = ap or_committee e
  where
    or_committee : NodeResult Committee → Option Committee
    or_committee (ok d) = some d
    or_committee _ = none

deploy_testbed-unreadable_example :
    (deploy_testbed machine (λ path. true) two_keys []).0 ≡ ok (unreadable 0 two_keys)
unfolding parse_share
deploy_testbed-unreadable_example =
    deploy_testbed-unreadable machine (λ path. true) two_keys [] (λ path. refl) same_committee
      secret_json-IsJson (λ s. refl) (omega arith)
