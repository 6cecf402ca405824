-- ===== src/Node/Client.antt =====
-- node/src/client.rs: the client that submits transactions at a rate. The crate bytes is a
-- parameter, as are the first random number and what the connection does. An interval's ticks are
-- counted, and the delays and what is logged are left out.
pub mod Invariant
pub mod Distinct
use gnosis.Prelude.{
  ℕ, List, ◌≡◌, Bool, ◌++◌, ◌/◌, [], if◌then◌else◌, suc, zero, ◌∷◌, length, ◌==◌, ◌+◌, ltb, ◌≤◌,
  false, ◌%◌, true, take, nat_eq,
}
use gnosis.Network.{Bytes}
use gnosis.Config.{SocketAddr}
use gnosis.Prelude.Words.{add64, be_bytes}

pub record Client : Type 0 where
  pub target : SocketAddr
  pub size : ℕ
  pub rate : ℕ
  pub timeout : ℕ
  pub synctime : ℕ
  pub nodes : List SocketAddr

-- What the source calls of the crate bytes, on the content of a buffer; `resize` fills with zeros.
pub record BytesMut : Type 0 where
  pub put_u8 : ℕ → Bytes → Bytes
  pub put_u64 : ℕ → Bytes → Bytes
  pub resize : ℕ → Bytes → Bytes

-- What is documented of it.
pub record IsBytesMut (b : BytesMut) : Type 0 where
  pub put_u8_lem : (n : ℕ) (buffer : Bytes) → b.put_u8 n buffer ≡ buffer ++ n ∷ []
  pub put_u64_lem : (n : ℕ) (buffer : Bytes) → b.put_u64 n buffer ≡ buffer ++ be_bytes 8 n
  pub length-resize : (n : ℕ) (buffer : Bytes) → length (b.resize n buffer) ≡ n
  pub take-resize :
      (k n : ℕ) (buffer : Bytes)
      → k ≤ n
      → k ≤ length buffer
      → take k (b.resize n buffer) ≡ take k buffer

-- The variables of `send`, with the transactions that were sent, the newest first.
pub record Sending : Type 0 where
  pub counter : ℕ
  pub r : ℕ
  pub sent : List Bytes
  pub running : Bool

pub data SendResult : Type 0 where
  transaction_too_small failed_to_connect : SendResult
  sending : Sending → SendResult

abbrev pub precision : ℕ
precision = 20

module _ (bytes_mut : BytesMut) (accepted : ℕ → Bool) (client : Client) where
  open bytes_mut use {put_u8, put_u64, resize}

  abbrev pub burst : ℕ
  burst = client.rate / precision

  unfoldable pub transaction : (tag n : ℕ) → Bytes
  transaction tag n = resize client.size (put_u64 n (put_u8 tag []))

  -- transport.send: the connection may refuse, after so many transactions.
  unfoldable pub transmit : Bytes → Sending → Sending
  transmit bytes st =
      if accepted (length st.sent)
      then record st { sent = bytes ∷ st.sent }
      else record st { running = false }

  -- One turn of the inner loop.
  unfoldable pub submit : (x : ℕ) → Sending → Sending
  unfolding transmit transaction
  submit x st =
      if x == st.counter % burst
      then transmit (transaction 0 st.counter) st
      else transmit (transaction 1 (add64 st.r 1)) (record st { r = add64 st.r 1 })

  -- The inner loop, with so many turns left.
  unfoldable pub submit_all : (left x : ℕ) → Sending → Sending
  unfolding submit
  submit_all zero x st = st
  submit_all (suc left) x st =
      let rest = submit_all left (x + 1) (submit x st) in
      if (submit x st).running then rest else submit x st

  -- The outer loop, which ends only by an error, for so many ticks.
  unfoldable pub main_loop : (ticks : ℕ) → Sending → Sending
  unfolding submit_all
  main_loop zero st = st
  main_loop (suc ticks) st =
      let after = submit_all burst 0 st in
      let rest = main_loop ticks (record after { counter = add64 after.counter 1 }) in
      if after.running then rest else after

  -- Client::send
  unfoldable pub send : (connects : Bool) (r ticks : ℕ) → SendResult
  unfolding main_loop
  send connects r ticks =
      if ltb client.size 9
      then transaction_too_small
      else if connects
      then sending (main_loop ticks (record { counter = 0; r = r; sent = []; running = true }))
      else failed_to_connect
