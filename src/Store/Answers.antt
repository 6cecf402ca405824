-- ===== src/Store/Answers.antt =====
-- How often the requests of NotifyRead are answered (store/src/lib.rs).
use gnosis.Prelude.Map.{get_or, get_or-remove, get_or-insert, lookup}
use gnosis.Prelude.{
  List, ℕ, ◌∷◌, ◌+◌, ◌++◌, [], ◌≡◌, if◌then◌else◌, ◌==◌, arith, nat_eq, none, ◌⊎◌, some, Bool-cases,
  inl, Option, inr, ap, subst, ◌∙◌, sym, refl,
}
use gnosis.Store.{
  Db, Store, StoreCommand, Answer, Key, Sender, notify, on_command, Value, read_answer, notify_read,
  notify_answer, write, read, bytes_eq, ok, run_commands, IsMap, on_notify_read, StoreResult, fresh,
  failed,
}

-- How often a sender stands in a queue.
unfoldable pub times : Sender → List Sender → ℕ
times s [] = 0
times s (x ∷ xs) = (if x == s then 1 else 0) + times s xs

-- How often the sender was answered about the key.
unfoldable pub answered : Key → Sender → List Answer → ℕ
answered k s [] = 0
answered k s (read_answer x r ∷ log) = answered k s log
answered k s (notify_answer j x r ∷ log) =
    (if j == k then (if x == s then 1 else 0) else 0) + answered k s log

-- How often it was asked for.
unfoldable pub asked : Key → Sender → List StoreCommand → ℕ
asked k s [] = 0
asked k s (notify_read j x ∷ commands) =
    (if j == k then (if x == s then 1 else 0) else 0) + asked k s commands
asked k s (_ ∷ commands) = asked k s commands

times-snoc :
    (s x : Sender) (xs : List Sender)
    → times s (xs ++ x ∷ []) ≡ times s xs + (if x == s then 1 else 0)
unfolding times
times-snoc s x [] = ground arith
times-snoc s x (y ∷ ys) = ground (arith, times-snoc s x ys)

module _ (db : Db) (k : Key) (s : Sender) where
  -- How often it waits.
  unfoldable pub waiting : Store db → ℕ
  waiting st = times s (get_or k [] st.obligations)

  answered-notify :
      (j : Key) (v : Value) (senders : List Sender) (log : List Answer)
      → answered k s (notify db j v senders log)
        ≡ (if j == k then times s senders else 0) + answered k s log
  unfolding notify answered times
  answered-notify j v [] log = ground arith
  answered-notify j v (x ∷ senders) log =
      ground (arith, answered-notify j v senders (notify_answer j x (ok v) ∷ log))

  -- A command answers, or keeps waiting, each request once.
  on_command-counts :
      (c : StoreCommand) (st : Store db)
      → answered k s (on_command db c st).answers + waiting (on_command db c st)
        ≡ answered k s st.answers + waiting st + asked k s (c ∷ [])
  unfolding on_command waiting answered asked lookup times
  on_command-counts (write j v) st =
      let senders : List Sender = get_or j [] st.obligations in
      let log = answered-notify j v senders st.answers in
      let left = get_or-remove j k [] st.obligations in
      elim (Bool-cases (j == k)) [
        | inl same ↦
            let here : times s senders ≡ waiting st =
              ap (λ x. times s (get_or x [] st.obligations)) ((bytes_eq.beq_iff j k).0 same) in
            omega (arith, rw same at log, ap (times s) (rw same at left), here)
        | inr other ↦ omega (arith, rw other at log, ap (times s) (rw other at left))
      ]
  on_command-counts (read j x) st = omega arith
  on_command-counts (notify_read j x) st =
      elim (db.get j st.database)
        as (λ r.
          answered k s (on_notify_read db j x r st).answers + waiting (on_notify_read db j x r st)
          ≡ answered k s st.answers + waiting st + asked k s (notify_read j x ∷ [])) [
            | ok none ↦
                let senders : List Sender = get_or j [] st.obligations in
                let kept = get_or-insert j k [] (senders ++ x ∷ []) st.obligations in
                elim (Bool-cases (j == k)) [
                  | inl same ↦
                      let here : times s senders ≡ waiting st =
                        ap (λ x. times s (get_or x [] st.obligations))
                          ((bytes_eq.beq_iff j k).0 same) in
                      rw same (
                        omega (arith, ap (times s) (rw same at kept), times-snoc s x senders, here))
                  | inr other ↦ rw other (omega (arith, ap (times s) (rw other at kept)))
                ]
            | ok (some v) ↦ ground arith
            | failed ↦ ground arith
          ]

  asked-cons :
      (c : StoreCommand) (commands : List StoreCommand)
      → asked k s (c ∷ commands) ≡ asked k s (c ∷ []) + asked k s commands
  unfolding asked
  asked-cons (write j v) commands = omega arith
  asked-cons (read j x) commands = omega arith
  asked-cons (notify_read j x) commands = omega arith

  run_commands-counts :
      (commands : List StoreCommand) (st : Store db)
      → answered k s (run_commands db commands st).answers + waiting (run_commands db commands st)
        ≡ answered k s st.answers + waiting st + asked k s commands
  unfolding run_commands
  run_commands-counts [] st = unfold asked in omega arith
  run_commands-counts (c ∷ commands) st = omega (
    arith,
    run_commands-counts commands (on_command db c st),
    on_command-counts c st,
    asked-cons c commands,
  )

module _ (db : Db) (map : IsMap db) where
  -- Only a key that is missing is waited for.
  abbrev Awaits : Store db → Type 0
  Awaits st = (k : Key) → (db.get k st.database ≡ ok none) ⊎ (get_or k [] st.obligations ≡ [])

  on_notify_read-Awaits :
      (j : Key) (x : Sender) (st : Store db)
      → Awaits st
      → (k : Key) (r : StoreResult (Option Value)) → db.get j st.database ≡ r
      → (db.get k (on_notify_read db j x r st).database ≡ ok none)
        ⊎ (get_or k [] (on_notify_read db j x r st).obligations ≡ [])
  unfolding on_notify_read
  on_notify_read-Awaits j x st h k failed e = h k
  on_notify_read-Awaits j x st h k (ok (some v)) e = h k
  on_notify_read-Awaits j x st h k (ok none) e = elim (Bool-cases (j == k)) [
    | inl same ↦ inl (subst (λ i. db.get i st.database ≡ ok none) ((bytes_eq.beq_iff j k).0 same) e)
    | inr other ↦ elim (h k) [
      | inl missing ↦ inl missing
      | inr none_wait ↦ inr (
          (rw other at (get_or-insert j k [] (get_or j [] st.obligations ++ x ∷ []) st.obligations))
          ∙ none_wait)
    ]
  ]

  on_command-Awaits : (c : StoreCommand) (st : Store db) → Awaits st → Awaits (on_command db c st)
  unfolding on_command
  on_command-Awaits (write j v) st h k = elim (Bool-cases (j == k)) [
    | inl same ↦ inr (rw same at (get_or-remove j k [] st.obligations))
    | inr other ↦ elim (h k) [
      | inl missing ↦ inl ((rw other at (map.get-put j k v st.database)) ∙ missing)
      | inr none_wait ↦ inr ((rw other at (get_or-remove j k [] st.obligations)) ∙ none_wait)
    ]
  ]
  on_command-Awaits (read j x) st h k = h k
  on_command-Awaits (notify_read j x) st h k =
      on_notify_read-Awaits j x st h k (db.get j st.database) refl

  run_commands-Awaits :
      (commands : List StoreCommand) (st : Store db)
      → Awaits st
      → Awaits (run_commands db commands st)
  unfolding run_commands
  run_commands-Awaits [] st h = h
  run_commands-Awaits (c ∷ commands) st h =
      run_commands-Awaits commands (on_command db c st) (on_command-Awaits c st h)

-- A task that starts with no requests answers each request of NotifyRead for a key as often as it
-- was made, if the key is in the database after the commands: nobody who waited for the key waits
-- for ever, and nobody is answered twice. The database must be a map.
pub notify_read_answered :
    (db : Db) (commands : List StoreCommand) (database : db.State) (k : Key) (s : Sender)
    (v : Value)
    → IsMap db
    → db.get k (run_commands db commands (fresh db database)).database ≡ ok (some v)
    → answered k s (run_commands db commands (fresh db database)).answers ≡ asked k s commands
unfolding waiting answered times lookup
notify_read_answered db commands database k s v map present =
    elim (run_commands-Awaits db map commands (fresh db database) (λ j. inr refl) k) [
      | inl missing ↦ let clash = sym present ∙ missing in cc
      | inr empty ↦
          omega (arith, run_commands-counts db k s commands (fresh db database), ap (times s) empty)
    ]
