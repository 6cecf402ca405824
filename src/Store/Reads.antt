-- ===== src/Store/Reads.antt =====
-- What the store reads (store/src/lib.rs).
use gnosis.Prelude.{
  List, Option, ◌∷◌, ◌≡◌, some, if◌then◌else◌, none, ◌==◌, [], ◌∙◌, refl, arith, ap,
}
use gnosis.Store.{
  Db, IsMap, Store, StoreCommand, Key, Value, Sender, on_notify_read, run_commands, on_command,
  StoreResult, write, ok, read, read_answer, notify_read, failed, notify_answer, bytes_eq,
}

-- The value that a key was given last, by the commands, or before them.
unfoldable pub last_value : Key → List StoreCommand → Option Value → Option Value
last_value k [] before = before
last_value k (write j v ∷ commands) before =
    last_value k commands (if j == k then some v else before)
last_value k (_ ∷ commands) before = last_value k commands before

module _ (db : Db) (map : IsMap db) where
  on_notify_read-database :
      (k : Key) (s : Sender) (r : StoreResult (Option Value)) (st : Store db)
      → (on_notify_read db k s r st).database ≡ st.database
  unfolding on_notify_read
  on_notify_read-database k s (ok none) st = refl
  on_notify_read-database k s (ok (some v)) st = refl
  on_notify_read-database k s failed st = refl

  run_commands-get :
      (commands : List StoreCommand) (st : Store db) (k : Key) (o : Option Value)
      → db.get k st.database ≡ ok o
      → db.get k (run_commands db commands st).database ≡ ok (last_value k commands o)
  unfolding run_commands last_value on_command
  run_commands-get [] st k o e = e
  run_commands-get (write j v ∷ commands) st k o e =
      run_commands-get commands (on_command db (write j v) st) k (if j == k then some v else o)
        written
    where
      written : db.get k (db.put j v st.database) ≡ ok (if j == k then some v else o)
      written = map.get-put j k v st.database ∙ ground (arith, e)
  run_commands-get (read j s ∷ commands) st k o e =
      run_commands-get commands (on_command db (read j s) st) k o e
  run_commands-get (notify_read j s ∷ commands) st k o e =
      run_commands-get commands (on_command db (notify_read j s) st) k o
        (ap (db.get k) (on_notify_read-database j s (db.get j st.database) st) ∙ e)

-- After any commands a read is answered with the value that the key was given last, or none, and a
-- request of NotifyRead for a key that has one is answered at once with that value, if the database
-- is a map.
pub run_commands-last_value :
    (db : Db) (commands : List StoreCommand) (st : Store db) (k : Key) (o : Option Value)
    (s : Sender)
    → IsMap db
    → db.get k st.database ≡ ok o
    → ((on_command db (read k s) (run_commands db commands st)).answers
        ≡ read_answer s (ok (last_value k commands o)) ∷ (run_commands db commands st).answers)
      × ((v : Value)
          → last_value k commands o ≡ some v
          → (on_command db (notify_read k s) (run_commands db commands st)).answers
            ≡ notify_answer k s (ok v) ∷ (run_commands db commands st).answers)
unfolding on_command on_notify_read
run_commands-last_value db commands st k o s map e =
    let now = run_commands-get db map commands st k o e in
    (
      ap (λ r. read_answer s r ∷ (run_commands db commands st).answers) now,
      λ v known. rw (now, known) refl,
    )
