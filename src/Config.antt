-- ===== src/Config.antt =====
-- consensus/src/config.rs: the parameters and the committee.
pub mod Stake
pub mod Quorum
use gnosis.Prelude.{
  ℕ, ◌+◌, ◌*◌, ◌/◌, ◌-◌, Bool, true, false, not, List, [], ◌∷◌, map, Option, none, some, length,
  ltb, if◌then◌else◌, ◌==◌, nat_eq,
}
use gnosis.Prelude.Words.{add32, sub32}
use gnosis.Prelude.Map.{Map, keys, values, lookup, insert}
use gnosis.Crypto.{PublicKey}
use gnosis.Error.{Outcome, ok, err, panic, not_in_committee}

abbrev pub SocketAddr : Type 0
SocketAddr = ℕ

pub record Parameters : Type 0 where
  pub node_sync_time : ℕ
  pub timeout_delay : ℕ
  pub sync_retry_delay : ℕ
  pub network_delay : ℕ
  pub max_payload_size : ℕ
  pub min_block_delay : ℕ
  pub ddos : Bool
  pub random_ddos : Bool
  pub random_ddos_chance : ℕ
  pub fallback_length : ℕ
  pub exp : ℕ
  pub leader_window : ℕ

abbrev pub default_parameters : Parameters
default_parameters = record {
  node_sync_time = 500;
  timeout_delay = 5000;
  sync_retry_delay = 10000;
  network_delay = 100;
  max_payload_size = 500;
  min_block_delay = 100;
  ddos = false;
  random_ddos = false;
  random_ddos_chance = 5;
  fallback_length = 3;
  exp = 1;
  leader_window = 2;
}

pub record Authority : Type 0 where
  pub name : PublicKey
  pub id : ℕ
  pub stake : ℕ
  pub address : SocketAddr
  pub smvba_address : SocketAddr

pub record Committee : Type 0 where
  pub authorities : Map PublicKey Authority
  pub epoch : ℕ

-- `collect` into the map: a later entry of the same name replaces an earlier one.
collect_authorities :
    List (PublicKey × ℕ × ℕ × SocketAddr × SocketAddr)
    → Map PublicKey Authority
    → Map PublicKey Authority
collect_authorities [] m = m
collect_authorities (i ∷ info) m = collect_authorities info (
    insert i.0 (record { name = i.0; id = i.1; stake = i.2; address = i.3; smvba_address = i.4 }) m)

-- Committee::new
unfoldable pub new : List (PublicKey × ℕ × ℕ × SocketAddr × SocketAddr) → ℕ → Committee
unfolding collect_authorities
new info epoch = record { authorities = collect_authorities info []; epoch = epoch }

unfoldable pub size : Committee → ℕ
size c = length c.authorities

stake_or_zero : Option Authority → ℕ
stake_or_zero none = 0
stake_or_zero (some a) = a.stake

unfoldable pub stake : Committee → PublicKey → ℕ
unfolding stake_or_zero
stake c name = stake_or_zero (lookup name c.authorities)

-- Panics at a name outside the committee.
unfoldable pub id : Committee → PublicKey → Outcome ℕ
id c name = elim (lookup name c.authorities) [ none ↦ panic | some a ↦ ok a.id ]

-- `sum` of u32.
unfoldable pub sum_stakes : List Authority → ℕ
sum_stakes [] = 0
sum_stakes (a ∷ as') = add32 a.stake (sum_stakes as')

unfoldable pub total_votes : Committee → ℕ
total_votes c = sum_stakes (values c.authorities)

unfoldable pub quorum_threshold : Committee → ℕ
quorum_threshold c = 2 * (sub32 (total_votes c) 1 / 3) + 1

unfoldable pub large_threshold : Committee → ℕ
large_threshold c = sub32 (total_votes c) 1

unfoldable pub random_coin_threshold : Committee → ℕ
random_coin_threshold c = sub32 (total_votes c) 1 / 3 + 1

unfoldable pub address : Committee → PublicKey → Outcome SocketAddr
address c name = elim (lookup name c.authorities) [
  | none ↦ err (not_in_committee name)
  | some a ↦ ok a.address
]

unfoldable pub smvba_address : Committee → PublicKey → Outcome SocketAddr
smvba_address c name = elim (lookup name c.authorities) [
  | none ↦ err (not_in_committee name)
  | some a ↦ ok a.smvba_address
]

unfoldable pub others : PublicKey → List Authority → List Authority
others myself [] = []
others myself (a ∷ as') =
    let rest = others myself as' in if a.name == myself then rest else a ∷ rest

unfoldable pub broadcast_addresses : Committee → PublicKey → List SocketAddr
unfolding others
broadcast_addresses c myself = map (λ a. a.address) (others myself (values c.authorities))

unfoldable pub smvba_broadcast_addresses : Committee → PublicKey → List SocketAddr
unfolding others
smvba_broadcast_addresses c myself =
    map (λ a. a.smvba_address) (others myself (values c.authorities))
