-- ===== src/Filter.antt =====
-- consensus/src/filter.rs: the task between the core and the senders of the network. bincode is a
-- parameter, and the senders that it hands messages to never stop. The delayed messages of a channel
-- complete in any order, which events give: a future of `pending` that completes is named by its
-- place. Time is left out: `delay` says how long it sleeps.
pub mod Order
use gnosis.Error.{Outcome, ok, panic}
use gnosis.Config.{SocketAddr, Parameters}
use gnosis.Messages.{ConsensusMessage, hs_propose}
use gnosis.Prelude.{
  [], ℕ, List, Bool, true, Option, none, false, ◌∷◌, some, ◌++◌, suc, if◌then◌else◌, zero, ltb,
}
use gnosis.Mempool.State.{lift}
use gnosis.Core.State.{FilterInput}
use gnosis.Network.{Bytes}

-- NetMessage of network/src/lib.rs
pub record NetMessage : Type 0 where
  pub bytes : Bytes
  pub addresses : List SocketAddr

pub record Filter : Type 0 where
  pub pending : List FilterInput
  pub pending_smvba : List FilterInput
  pub network : List NetMessage
  pub net_smvba : List NetMessage
  -- Whether the task has not panicked.
  pub running : Bool

abbrev pub new_filter : Filter
new_filter = record {
  pending = [];
  pending_smvba = [];
  network = [];
  net_smvba = [];
  running = true;
}

pub data Event : Type 0 where
  core_recv core_smvba_recv : FilterInput → Event
  -- The future at a place completes; `chosen` is what gen_bool draws for it.
  pending_next pending_smvba_next : (place : ℕ) (chosen : Bool) → Event

unfoldable pub is_hs_propose : ConsensusMessage → Bool
is_hs_propose (hs_propose block) = true
is_hs_propose _ = false

unfoldable pub remove : {A : Type 0} → ℕ → List A → Option (A × List A)
remove i [] = none
remove zero (x ∷ xs) = some (x, xs)
remove (suc i) (x ∷ xs) = elim (remove i xs) [ none ↦ none | some r ↦ some (r.0, x ∷ r.1) ]

module _ (serialize : ConsensusMessage → Option Bytes) (parameters : Parameters) where
  -- Filter::delay, in milliseconds; gen_bool panics at a probability above 1.
  unfoldable pub delay : FilterInput → (chosen : Bool) → Outcome ℕ
  unfolding is_hs_propose
  delay input chosen =
      if is_hs_propose input.0
      then if parameters.random_ddos
        then if ltb 100 parameters.random_ddos_chance
          then panic
          else if chosen
          then ok parameters.network_delay
          else if parameters.ddos
          then ok parameters.network_delay
          else ok 0
        else if parameters.ddos
        then ok parameters.network_delay
        else ok 0
      else ok 0

  -- What `transmit` sends; it panics if the message cannot be serialized.
  unfoldable pub encoded : FilterInput → Option NetMessage
  encoded (message, addresses) = elim (serialize message) [
    | none ↦ none
    | some bytes ↦ some (record { bytes = bytes; addresses = addresses })
  ]

  -- A delayed message of either channel, through its delay and Filter::transmit.
  unfoldable pub completed : FilterInput → (chosen : Bool) → Option NetMessage
  unfolding delay encoded
  completed input chosen = elim (delay input chosen) [ ok ms ↦ encoded input | _ ↦ none ]

  unfoldable pub on_event : Event → Filter → Filter
  unfolding remove completed
  on_event (core_recv input) st = record st { pending = st.pending ++ input ∷ [] }
  on_event (core_smvba_recv input) st = record st { pending_smvba = st.pending_smvba ++ input ∷ [] }
  on_event (pending_next place chosen) st = elim (remove place st.pending) [
    | none ↦ st
    | some (input, rest) ↦ elim (completed input chosen) [
      | none ↦ record st { running = false }
      | some message ↦ record st { pending = rest; network = st.network ++ message ∷ [] }
    ]
  ]
  on_event (pending_smvba_next place chosen) st = elim (remove place st.pending_smvba) [
    | none ↦ st
    | some (input, rest) ↦ elim (completed input chosen) [
      | none ↦ record st { running = false }
      | some message ↦ record st { pending_smvba = rest; net_smvba = st.net_smvba ++ message ∷ [] }
    ]
  ]

  -- Filter::run
  unfoldable pub run : List Event → Filter → Filter
  unfolding on_event
  run [] st = st
  run (e ∷ events) st = let rest = run events (on_event e st) in if st.running then rest else st
