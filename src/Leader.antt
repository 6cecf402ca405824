-- ===== src/Leader.antt =====
-- consensus/src/leader.rs: `leader_window` leaders for each height, in turn, and the leaders that
-- the random coin elected.
pub mod Window
pub mod Elected
use gnosis.Prelude.Words.{add64}
use gnosis.Error.{Outcome, ok, panic, ◌>>=◌}
use gnosis.Prelude.Map.{insert, Map, keys, lookup}
use gnosis.Prelude.{
  List, ℕ, sort, Option, ◌∷◌, if◌then◌else◌, pair_eq, [], nat_eqb, suc, length, get_elem?, nat_eq,
  ◌+◌, ◌%◌, none, some, zero, ◌-◌, ltb,
}
use Prim.Native.Nat.{ℕ, suc}
use mathlib.Core.Option as Option
use gnosis.Crypto.{PublicKey}
use gnosis.Prelude.Words.{add64}
use gnosis.Config.{Committee}
use gnosis.Messages.{RandomCoin}

pub record LeaderElector : Type 0 where
  pub names : List PublicKey
  pub name_to_idx : Map PublicKey ℕ
  pub leader_window : ℕ
  pub random_coins : Map (ℕ × ℕ) RandomCoin

-- `enumerate` and `collect`: the names with their places, from i on.
unfoldable pub places : ℕ → List PublicKey → Map PublicKey ℕ → Map PublicKey ℕ
places i [] m = m
places i (x ∷ xs) m = places (suc i) xs (insert x i m)

unfoldable pub new : Committee → ℕ → LeaderElector
unfolding places
new committee leader_window =
    let names = sort (keys committee.authorities) in
    record {
      names = names;
      name_to_idx = places 0 names [];
      leader_window = leader_window;
      random_coins = [];
    }

-- Panics if there is no authority (a remainder by zero).
unfoldable pub get_leader_idx : LeaderElector → ℕ → Outcome ℕ
get_leader_idx e height = if nat_eqb (length e.names) 0 then panic else ok (height % length e.names)

-- The loop of get_leaders: `count` leaders from place i on. The sums of a usize of 64 bits wrap.
unfoldable pub leaders_from : List PublicKey → ℕ → ℕ → Outcome (List PublicKey)
leaders_from names i zero = ok []
leaders_from names i (suc count) =
    let rest = leaders_from names (suc i) count in
    elim (get_elem? names (add64 i (length names) % length names)) [
      | none ↦ panic
      | some name ↦ rest >>= λ leaders. ok (name ∷ leaders)
    ]

unfoldable pub get_leaders : LeaderElector → ℕ → Outcome (List PublicKey)
unfolding leaders_from get_leader_idx
get_leaders e height = do
  start ← get_leader_idx e height
  leaders_from e.names start (add64 start e.leader_window - start)

-- Panics at a name that is not in the committee (`name_to_idx[&name]`).
unfoldable pub index_as_leader : LeaderElector → PublicKey → ℕ → Outcome (Option ℕ)
unfolding get_leader_idx
index_as_leader e name height = do
  start ← get_leader_idx e height
  elim (lookup name e.name_to_idx) [
    | none ↦ panic
    | some position ↦
        let idx = (position + length e.names - start) % length e.names in
        ok (if ltb idx e.leader_window then some idx else none)
  ]

unfoldable pub add_random_coin : LeaderElector → RandomCoin → LeaderElector
add_random_coin e coin = record e {
  random_coins = insert (coin.height, coin.round) coin e.random_coins;
}

unfoldable pub get_coin_leader : LeaderElector → ℕ → ℕ → Option PublicKey
get_coin_leader e height round =
    Option.map (λ (c : RandomCoin). c.leader) (lookup (height, round) e.random_coins)
