-- ===== src/Store.antt =====
-- store/src/lib.rs: the task that owns the database, over the commands it receives. The database is
-- rocksdb, a parameter; a oneshot sender is a number, and what it was sent is kept in a log.
pub mod Answers
pub mod Reads
use gnosis.Prelude.Map.{Map, remove, insert, get_or}
use gnosis.Prelude.{
  ℕ, List, Bool, ◌≡◌, Eq, Option, true, if◌then◌else◌, ◌∷◌, [], ◌↔◌, ◌==◌, nat_eqb, arith, some,
  ◌++◌, none, ◌&&◌, false,
}

abbrev pub Key : Type 0
Key = List ℕ

abbrev pub Value : Type 0
Value = List ℕ

abbrev pub Sender : Type 0
Sender = ℕ

unfoldable pub bytes_eqb : Key → Key → Bool
bytes_eqb [] [] = true
bytes_eqb (x ∷ xs) (y ∷ ys) = nat_eqb x y && bytes_eqb xs ys
bytes_eqb _ _ = false

pub bytes_eqb_iff : (xs ys : Key) → (bytes_eqb xs ys ≡ true) ↔ (xs ≡ ys)
unfolding bytes_eqb
bytes_eqb_iff [] [] = ground arith
bytes_eqb_iff [] (y ∷ ys) = ground arith
bytes_eqb_iff (x ∷ xs) [] = ground arith
bytes_eqb_iff (x ∷ xs) (y ∷ ys) = ground (arith, bytes_eqb_iff xs ys)

instance abbrev pub bytes_eq : Eq Key
bytes_eq = record { beq = bytes_eqb; beq_iff = bytes_eqb_iff }

-- What rocksdb returns: a failure is its error.
pub data StoreResult (A : Type 0) : Type 0 where
  ok : A → StoreResult A
  failed : StoreResult A

-- The database. The result of `put` is ignored, so only its new state counts.
pub record Db : Type 1 where
  pub State : Type 0
  pub put : Key → Value → State → State
  pub get : Key → State → StoreResult (Option Value)

-- The database is a map, as rocksdb documents it where no operation fails.
pub record IsMap (db : Db) : Type 0 where
  pub get-put :
      (k j : Key) (v : Value) (s : db.State)
      → db.get j (db.put k v s) ≡ (if k == j then ok (some v) else db.get j s)
  pub get_total : (k : Key) (s : db.State) → (o : Option Value) × (db.get k s ≡ ok o)

pub data StoreCommand : Type 0 where
  write : Key → Value → StoreCommand
  read : Key → Sender → StoreCommand
  notify_read : Key → Sender → StoreCommand

-- What was sent to a sender of a `Read`, or of a `NotifyRead` of a key.
pub data Answer : Type 0 where
  read_answer : Sender → StoreResult (Option Value) → Answer
  notify_answer : Key → Sender → StoreResult Value → Answer

module _ (db : Db) where
  pub record Store : Type 0 where
    pub database : db.State
    pub obligations : Map Key (List Sender)
    -- The newest first.
    pub answers : List Answer

  -- The loop that pops the senders from the front.
  unfoldable pub notify : Key → Value → List Sender → List Answer → List Answer
  notify key value [] log = log
  notify key value (s ∷ senders) log =
      notify key value senders (notify_answer key s (ok value) ∷ log)

  unfoldable pub on_notify_read : Key → Sender → StoreResult (Option Value) → Store → Store
  on_notify_read key sender (ok none) st = record st {
    obligations = insert key (get_or key [] st.obligations ++ sender ∷ []) st.obligations;
  }
  on_notify_read key sender (ok (some v)) st = record st {
    answers = notify_answer key sender (ok v) ∷ st.answers;
  }
  on_notify_read key sender failed st = record st {
    answers = notify_answer key sender failed ∷ st.answers;
  }

  unfoldable pub on_command : StoreCommand → Store → Store
  unfolding notify on_notify_read
  on_command (write key value) st = record {
    database = db.put key value st.database;
    obligations = remove key st.obligations;
    answers = notify key value (get_or key [] st.obligations) st.answers;
  }
  on_command (read key sender) st = record st {
    answers = read_answer sender (db.get key st.database) ∷ st.answers;
  }
  on_command (notify_read key sender) st = on_notify_read key sender (db.get key st.database) st

  unfoldable pub run_commands : List StoreCommand → Store → Store
  run_commands [] st = st
  run_commands (c ∷ commands) st = run_commands commands (on_command c st)

  -- The task at its start.
  abbrev pub fresh : db.State → Store
  fresh database = record { database = database; obligations = []; answers = [] }
