-- ===== src/Mempool/Payload.antt =====
-- mempool/src/payload.rs and the payloads of mempool/src/messages.rs. The runner's channels are a
-- list of inputs, transactions and requests; its delays are left out.
use gnosis.Crypto.{Crypto, PublicKey, Signature, Digest}
use gnosis.Prelude.{
  ℕ, List, Option, ◌∷◌, ◌%◌, [], ◌++◌, if◌then◌else◌, some, length, ltb, nat_eqb, none, ◌+◌,
}
use gnosis.Prelude.Words.{be_bytes, add64, u64_mod}

-- Bytes.
abbrev pub Transaction : Type 0
Transaction = List ℕ

pub record Payload : Type 0 where
  pub transactions : List Transaction
  pub author : PublicKey
  pub signature : Signature

abbrev pub total : List Transaction → ℕ
total [] = 0
total (tx ∷ txs) = length tx + total txs

abbrev pub flat : List Transaction → List ℕ
flat [] = []
flat (tx ∷ txs) = tx ++ flat txs

-- Payload::size
unfoldable pub payload_size : Payload → ℕ
payload_size p = total p.transactions % u64_mod

pub record Runner : Type 0 where
  pub transactions : List Transaction
  pub size : ℕ
  pub max_size : ℕ
  pub name : PublicKey

pub data Input : Type 0 where
  client_transaction : Transaction → Input
  request : Input

module _ (crypto : Crypto) where
  open crypto use {sha512, sign}

  unfoldable pub payload_digest : PublicKey → List Transaction → Digest
  payload_digest author transactions = sha512 (be_bytes 32 author ++ flat transactions)

  -- Payload::new
  unfoldable pub new_payload : List Transaction → PublicKey → Payload
  new_payload transactions author = record {
    transactions = transactions;
    author = author;
    signature = sign (payload_digest author transactions);
  }

  -- Runner::make
  unfoldable pub make_payload : Runner → Runner × Payload
  make_payload r = (record r { transactions = []; size = 0 }, new_payload r.transactions r.name)

  unfoldable pub push_transaction : Transaction → Runner → Runner
  push_transaction tx r = record r {
    transactions = r.transactions ++ tx ∷ [];
    size = add64 r.size (length tx);
  }

  -- Runner::add
  unfoldable pub add_transaction : Runner → Transaction → Runner × Option Payload
  unfolding make_payload push_transaction
  add_transaction r tx =
      if ltb r.max_size (add64 r.size (length tx))
      then (let (r', payload) = make_payload r in (push_transaction tx r', some payload))
      else (push_transaction tx r, none)

  unfoldable pub made_by : Option Payload → List Payload → List Payload
  made_by none rest = rest
  made_by (some p) rest = p ∷ rest

  -- Runner::run over a list of inputs: the payloads made for the core and for requests.
  unfoldable pub run_maker : Runner → List Input → Runner × List Payload
  unfolding add_transaction made_by
  run_maker r [] = (r, [])
  run_maker r (client_transaction tx ∷ inputs) =
      let (r', made) = add_transaction r tx in
      let (r'', rest) = run_maker r' inputs in (r'', made_by made rest)
  run_maker r (request ∷ inputs) =
      let (r', payload) = make_payload r in
      let (r'', rest) = run_maker r' inputs in (r'', payload ∷ rest)

-- PayloadMaker::make: a requested payload with no bytes is none.
unfoldable pub answered : Payload → Option Payload
answered p = if nat_eqb (payload_size p) 0 then none else some p
