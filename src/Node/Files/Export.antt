-- ===== src/Node/Files/Export.antt =====
-- What is read of a file that was written twice (node/src/config.rs).
use gnosis.Prelude.Map.{lookup, get_or, lookup-insert}
use gnosis.Node.Files.{
  is_blank, newline, Json, IsJson, overwrite, read, write, FilePath, Files, ok, err, read_error,
  NodeResult,
}
use mathlib.Core.List.{append_assoc, append-nil}
use gnosis.Network.{Bytes}
use gnosis.Crypto.Keys.{drop}
use gnosis.Prelude.{
  pair_eq, ℕ, length, ◌≤◌, ◌++◌, ◌≡◌, ◌∷◌, [], false, suc, arith, zero, refl, true, ◌+◌,
  length-append, some, ◌<◌, none, ap, ◌∙◌, Bool, ◌==◌, if_elim,
}

drop-all : (n : ℕ) (xs : Bytes) → length xs ≤ n → drop n xs ≡ []
unfolding drop
drop-all zero [] h = refl
drop-all zero (x ∷ xs) h = absurd (omega (arith, h))
drop-all (suc n) [] h = refl
drop-all (suc n) (x ∷ xs) h = drop-all n xs (omega (arith, h))

-- A brace that is kept is not blank.
is_blank-brace : (xs ys : Bytes) → is_blank (xs ++ 125 ∷ ys) ≡ false
unfolding is_blank
is_blank-brace [] ys = refl
is_blank-brace (x ∷ xs) ys = ground (arith, is_blank-brace xs ys)

drop-append : (n : ℕ) (xs ys : Bytes) → n ≤ length xs → drop n (xs ++ ys) ≡ drop n xs ++ ys
unfolding drop
drop-append zero xs ys h = refl
drop-append (suc n) [] ys h = absurd (omega (arith, h))
drop-append (suc n) (x ∷ xs) ys h = drop-append n xs ys (omega (arith, h))

is_blank-newline :
    (n : ℕ) (xs : Bytes) → length xs ≤ n → is_blank (newline ∷ drop n (xs ++ newline ∷ [])) ≡ true
unfolding is_blank drop
is_blank-newline zero [] h = refl
is_blank-newline zero (x ∷ xs) h = absurd (omega (arith, h))
is_blank-newline (suc n) [] h = rw (drop-all n [] (omega arith)) refl
is_blank-newline (suc n) (x ∷ xs) h = is_blank-newline n xs (omega (arith, h))

module _ {A : Type 0} (json : Json A) (laws : IsJson json) where
  open json use {to_string_pretty, from_slice}

  line : A → Bytes
  line v = to_string_pretty v ++ newline ∷ []

  -- A file whose text is written over another.
  over : A → A → Bytes
  over w v = overwrite (line w) (line v)

  over-eq :
      (w v : A)
      → over w v ≡ to_string_pretty w ++ newline ∷ drop (length (to_string_pretty w) + 1) (line v)
  unfolding over line overwrite
  over-eq w v =
      rw (length-append (to_string_pretty w) (newline ∷ []))
        (append_assoc (to_string_pretty w) (newline ∷ []) _)

  from_slice-over :
      (w v : A)
      → (length (to_string_pretty v) ≤ length (to_string_pretty w) + 1
          → from_slice (over w v) ≡ some w)
        × (length (to_string_pretty w) + 1 < length (to_string_pretty v)
            → from_slice (over w v) ≡ none)
  unfolding line is_blank
  from_slice-over w v = (
    λ fits.
        ap from_slice (over-eq w v)
        ∙ laws.reads w _
            (is_blank-newline (length (to_string_pretty w) + 1) (to_string_pretty v) fits),
    λ long. ap from_slice (over-eq w v) ∙ laws.refuses w _ (kept long),
  )
    where
      kept :
          length (to_string_pretty w) + 1 < length (to_string_pretty v)
          → is_blank (
              newline ∷ drop (length (to_string_pretty w) + 1) (to_string_pretty v ++ newline ∷ []))
            ≡ false
      kept long =
          let (front, e) = laws.ends v in
          let count : length (to_string_pretty v) ≡ length front + 1 =
            ap length e ∙ length-append front (125 ∷ []) in
          rw
            (
              e,
              append_assoc front (125 ∷ []) (newline ∷ []),
              drop-append (length (to_string_pretty w) + 1) front (125 ∷ newline ∷ [])
                  (omega (arith, long, count)),
            )
            (is_blank-brace (drop (length (to_string_pretty w) + 1) front) (newline ∷ []))

overwrite-nil : (new : Bytes) → overwrite new [] ≡ new
unfolding overwrite
overwrite-nil new = rw (drop-all (length new) [] (omega arith)) (append-nil new)

module _ {A : Type 0} (json : Json A) where
  pub write-lookup :
      (writable : FilePath → Bool) (v : A) (path : FilePath) (files : Files)
      → writable path ≡ true
      → lookup path (write json writable v path files).1
        ≡ some (overwrite (json.to_string_pretty v ++ newline ∷ []) (get_or path [] files))
  unfolding write
  write-lookup writable v path files opens =
      rw opens (lookup-insert path path _ files ∙ rw ((pair_eq.beq_iff path path).1 refl) refl)

  pub write-ok :
      (writable : FilePath → Bool) (v : A) (path : FilePath) (files : Files)
      → writable path ≡ true
      → (write json writable v path files).0 ≡ ok tt
  unfolding write
  write-ok writable v path files opens = rw (opens, write) refl

  -- Another file stays as it is.
  pub write-other :
      (writable : FilePath → Bool) (v : A) (path other : FilePath) (files : Files)
      → (path == other) ≡ false
      → lookup other (write json writable v path files).1 ≡ lookup other files
  unfolding write
  write-other writable v path other files differs =
      if_elim (λ (r : NodeResult (Unit {0}) × Files). lookup other r.1 ≡ lookup other files)
        (writable path) (λ opens. lookup-insert path other _ files ∙ rw differs refl) (λ shut. refl)

  -- A file that was not there.
  pub write-fresh :
      (writable : FilePath → Bool) (v : A) (path : FilePath) (files : Files)
      → writable path ≡ true
      → lookup path files ≡ none
      → lookup path (write json writable v path files).1
        ≡ some (json.to_string_pretty v ++ newline ∷ [])
  write-fresh writable v path files opens absent =
      write-lookup writable v path files opens ∙ rw (absent, get_or) (ap some (overwrite-nil _))

  pub read-from_slice :
      (path : FilePath) (files : Files) (bytes : Bytes)
      → lookup path files ≡ some bytes
      → read json path files
        ≡ elim (json.from_slice bytes) [ none ↦ err (read_error path) | some v ↦ ok v ]
  unfolding read
  read-from_slice path files bytes e = rw (e, read) refl

-- A value w written over a file that holds a value v, in a path where v was written to no file
-- before, is read back exactly if the text of v is longer than that of w by one byte at most; if it is longer than that,
-- what is left of v makes the file unreadable, since the file is not cut off when it is opened. The
-- path must be writable, and serde_json do what it documents.
pub write-read :
    {A : Type 0} (json : Json A) (writable : FilePath → Bool) (v w : A) (path : FilePath)
    (files : Files)
    → IsJson json
    → writable path ≡ true
    → lookup path files ≡ none
    → let after = (write json writable w path (write json writable v path files).1).1 in
      let text = json.to_string_pretty in
      (length (text v) ≤ length (text w) + 1 → read json path after ≡ ok w)
      × (length (text w) + 1 < length (text v) → read json path after ≡ err (read_error path))
unfolding line over
write-read json writable v w path files laws opens absent =
    let first = (write json writable v path files).1 in
    let bytes : lookup path first ≡ some (line json laws v) =
      write-fresh json writable v path files opens absent in
    let after : lookup path (write json writable w path first).1 ≡ some (over json laws w v) =
      write-lookup json writable w path first opens ∙ rw (bytes, get_or) refl in
    (
      λ fits.
          read-from_slice json path _ _ after ∙ rw ((from_slice-over json laws w v).0 fits) refl,
      λ long.
          read-from_slice json path _ _ after ∙ rw ((from_slice-over json laws w v).1 long) refl,
    )
