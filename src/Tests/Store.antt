-- ===== src/Tests/Store.antt =====
-- Examples about the store, over a map.
use gnosis.Store.Reads.{last_value, run_commands-last_value}
use gnosis.Store.Answers.{answered, asked, notify_read_answered}
use gnosis.Prelude.{List, ◌∷◌, [], ◌≡◌, some, none, arith, refl}
use gnosis.Store.{
  bytes_eqb, ok, Db, IsMap, run_commands, on_command, Key, StoreCommand, on_notify_read, read,
  Value, notify_read, bytes_eq, write, fresh, read_answer, notify_answer,
}
use gnosis.Prelude.Map.{Map, lookup, insert, lookup-insert}

abbrev memory : Db
memory = record { State = Map Key Value; put = insert; get = λ k m. ok (lookup k m) }

memory-IsMap : IsMap memory
memory-IsMap = record {
  get-put = λ k j v s. ground (arith, lookup-insert k j v s);
  get_total = λ k s. (lookup k s, refl);
}

abbrev commands : List StoreCommand
commands =
    notify_read (1 ∷ []) 7
    ∷ read (1 ∷ []) 8
    ∷ notify_read (1 ∷ []) 9
    ∷ write (1 ∷ []) (5 ∷ [])
    ∷ notify_read (1 ∷ []) 7
    ∷ []

present :
    memory.get (1 ∷ []) (run_commands memory commands (fresh memory [])).database
    ≡ ok (some (5 ∷ []))
unfolding run_commands on_command on_notify_read lookup insert bytes_eqb
present = refl

notify_read_answered_example :
    answered (1 ∷ []) 7 (run_commands memory commands (fresh memory [])).answers
    ≡ asked (1 ∷ []) 7 commands
notify_read_answered_example =
    notify_read_answered memory commands [] (1 ∷ []) 7 (5 ∷ []) memory-IsMap present

run_commands-last_value_example :
    ((on_command memory (read (1 ∷ []) 3) (run_commands memory commands (fresh memory []))).answers
      ≡ read_answer 3 (ok (last_value (1 ∷ []) commands none))
        ∷ (run_commands memory commands (fresh memory [])).answers)
    × ((v : Value)
        → last_value (1 ∷ []) commands none ≡ some v
        → (on_command memory
            (notify_read (1 ∷ []) 3)
            (run_commands memory commands (fresh memory []))).answers
          ≡ notify_answer (1 ∷ []) 3 (ok v)
            ∷ (run_commands memory commands (fresh memory [])).answers)
unfolding lookup
run_commands-last_value_example =
    run_commands-last_value memory commands (fresh memory []) (1 ∷ []) none 3 memory-IsMap refl
