-- ===== src/Node/Files.antt =====
-- The configuration files of node/src/config.rs, and the errors of node/src/node.rs. A file system
-- holds the bytes of each file; serde_json is a parameter for each type. The texts in errors are
-- left out.
pub mod Export
use gnosis.Error.{ConsensusError}
use gnosis.Network.{Bytes}
use gnosis.Mempool.Error.{MempoolError}
use gnosis.Prelude.{
  pair_eq, nat_eq, none, ℕ, Option, Bool, ◌≡◌, ◌++◌, true, length, some, if◌then◌else◌, ◌∷◌, false,
  ◌==◌, [], ◌||◌,
}
use gnosis.Prelude.Map.{Map, lookup, insert, get_or}
use gnosis.Crypto.Keys.{drop}

-- A path: what kind it is (one given on the command line, or one of those that deploy_testbed
-- formats), and its number.
abbrev pub FilePath : Type 0
FilePath = ℕ × ℕ

abbrev pub given : ℕ → FilePath
given n = (0, n)

-- NodeError
pub data NodeError : Type 0 where
  read_error write_error : FilePath → NodeError
  store_error : NodeError
  consensus_error : ConsensusError → NodeError
  mempool_error : MempoolError → NodeError

pub data NodeResult (A : Type 0) : Type 0 where
  ok : A → NodeResult A
  err : NodeError → NodeResult A
  panic : NodeResult A

infixl 5 ◌>>=◌
abbrev pub ◌>>=◌ : {A B : Type 0} → NodeResult A → (A → NodeResult B) → NodeResult B
ok x >>= next = next x
err why >>= next = err why
panic >>= next = panic

abbrev pub Files : Type 0
Files = Map FilePath Bytes

-- serde_json for a type that is written to files.
pub record Json (A : Type 0) : Type 0 where
  pub to_string_pretty : A → Bytes
  pub from_slice : Bytes → Option A

abbrev pub newline : ℕ
newline = 10

-- What the text of a value is followed by, to its end: nothing but white space.
unfoldable pub is_blank : Bytes → Bool
is_blank [] = true
is_blank (b ∷ bytes) =
    let rest = is_blank bytes in
    if b == 32 || b == newline || b == 9 || b == 13 then rest else false

-- What is documented of it: a text is read back, if white space follows, and refused if anything
-- else does. The text of a structure ends in a brace.
pub record IsJson {A : Type 0} (json : Json A) : Type 0 where
  pub reads :
      (v : A) (tail : Bytes)
      → is_blank tail ≡ true
      → json.from_slice (json.to_string_pretty v ++ tail) ≡ some v
  pub refuses :
      (v : A) (tail : Bytes)
      → is_blank tail ≡ false
      → json.from_slice (json.to_string_pretty v ++ tail) ≡ none
  pub ends : (v : A) → (front : Bytes) × (json.to_string_pretty v ≡ front ++ 125 ∷ [])

-- A file that is opened without being cut off: its bytes are replaced from the start.
unfoldable pub overwrite : Bytes → Bytes → Bytes
unfolding drop
overwrite new old = new ++ drop (length new) old

module _ {A : Type 0} (json : Json A) where
  -- Export::read
  unfoldable pub read : FilePath → Files → NodeResult A
  read path files = elim (lookup path files) [
    | none ↦ err (read_error path)
    | some bytes ↦ elim (json.from_slice bytes) [ none ↦ err (read_error path) | some v ↦ ok v ]
  ]

  -- Export::write, where `writable` says whether the file can be opened to write.
  unfoldable pub write :
      (writable : FilePath → Bool) → A → FilePath → Files → NodeResult (Unit {0}) × Files
  unfolding overwrite
  write writable v path files =
      if writable path
      then (
        ok tt,
        insert path (overwrite (json.to_string_pretty v ++ newline ∷ []) (get_or path [] files))
            files,
      )
      else (err (write_error path), files)
