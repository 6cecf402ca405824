-- ===== src/Mempool/Config.antt =====
-- mempool/src/config.rs: the parameters and the committee of the mempool.
use gnosis.Mempool.Error.{MempoolResult, err, not_in_committee, ok}
use gnosis.Prelude.Map.{Map, insert, contains_key, lookup, values}
use gnosis.Crypto.{PublicKey}
use gnosis.Prelude.{ℕ, List, ◌∷◌, [], Bool, map, if◌then◌else◌, none, ◌==◌, nat_eq, some}
use gnosis.Config.{SocketAddr}

pub record Parameters : Type 0 where
  pub queue_capacity : ℕ
  pub sync_retry_delay : ℕ
  pub max_payload_size : ℕ
  pub min_block_delay : ℕ

abbrev pub default_parameters : Parameters
default_parameters = record {
  queue_capacity = 10000;
  sync_retry_delay = 10000;
  max_payload_size = 100000;
  min_block_delay = 100;
}

pub record Authority : Type 0 where
  pub name : PublicKey
  pub front_address : SocketAddr
  pub mempool_address : SocketAddr

pub record Committee : Type 0 where
  pub authorities : Map PublicKey Authority
  pub epoch : ℕ

collect_authorities :
    List (PublicKey × SocketAddr × SocketAddr) → Map PublicKey Authority → Map PublicKey Authority
collect_authorities [] m = m
collect_authorities (i ∷ info) m =
    collect_authorities info
      (insert i.0 (record { name = i.0; front_address = i.1; mempool_address = i.2 }) m)

-- Committee::new
unfoldable pub new : List (PublicKey × SocketAddr × SocketAddr) → ℕ → Committee
unfolding collect_authorities
new info epoch = record { authorities = collect_authorities info []; epoch = epoch }

unfoldable pub exists : Committee → PublicKey → Bool
exists c name = contains_key name c.authorities

unfoldable pub front_address : Committee → PublicKey → MempoolResult SocketAddr
front_address c name = elim (lookup name c.authorities) [
  | none ↦ err (not_in_committee name)
  | some a ↦ ok a.front_address
]

unfoldable pub mempool_address : Committee → PublicKey → MempoolResult SocketAddr
mempool_address c name = elim (lookup name c.authorities) [
  | none ↦ err (not_in_committee name)
  | some a ↦ ok a.mempool_address
]

others : PublicKey → List Authority → List Authority
others myself [] = []
others myself (a ∷ as') =
    let rest = others myself as' in if a.name == myself then rest else a ∷ rest

unfoldable pub broadcast_addresses : Committee → PublicKey → List SocketAddr
unfolding others
broadcast_addresses c myself = map (λ a. a.mempool_address) (others myself (values c.authorities))
