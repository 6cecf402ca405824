-- ===== src/Tests/Files.antt =====
-- Examples about configuration files, the start of a node and the local testbed, with toy encodings
-- in place of serde_json.
use gnosis.Node.Files.Export.{write-read}
use gnosis.Prelude.Map.{lookup}
use gnosis.Node.Files.{Json, IsJson, is_blank}
use gnosis.Network.{Bytes}
use gnosis.Node.Files.{read, write, read_error, ok, err, given, Files}
use gnosis.Prelude.{
  pair_eq, nat_eq, ℕ, ◌∙◌, replicate, Option, arith, ◌++◌, none, ◌∷◌, [], suc, if◌then◌else◌, ◌≡◌,
  ◌==◌, some, ◌+◌, zero, refl, length, true, ◌≤◌, ◌<◌,
}

-- A number, as so many ones and a brace.
abbrev text : ℕ → Bytes
text n = replicate n 49 ++ 125 ∷ []

parse : ℕ → Bytes → Option ℕ
parse n [] = none
parse n (b ∷ bytes) =
    let rest = parse (suc n) bytes in
    if b == 49 then rest else if b == 125 then (if is_blank bytes then some n else none) else none

abbrev number_json : Json ℕ
number_json = record { to_string_pretty = text; from_slice = parse 0 }

parse-text :
    (m n : ℕ) (tail : Bytes)
    → parse m ((replicate n 49 ++ 125 ∷ []) ++ tail)
      ≡ (if is_blank tail then some (m + n) else none)
unfolding parse
parse-text m zero tail = ground arith
parse-text m (suc n) tail = parse-text (suc m) n tail ∙ ground arith

number_json-IsJson : IsJson number_json
number_json-IsJson = record {
  reads = λ v tail h. parse-text 0 v tail ∙ rw h (ground arith);
  refuses = λ v tail h. parse-text 0 v tail ∙ rw h refl;
  ends = λ v. (replicate v 49, refl);
}

abbrev twice : Files
twice =
    (write number_json (λ p. true) 2 (given 1) (write number_json (λ p. true) 5 (given 1) []).1).1

write-read_example :
    (length (text 5) ≤ length (text 2) + 1 → read number_json (given 1) twice ≡ ok 2)
    × (length (text 2) + 1 < length (text 5)
        → read number_json (given 1) twice ≡ err (read_error (given 1)))
unfolding lookup
write-read_example =
    write-read number_json (λ p. true) 5 2 (given 1) [] number_json-IsJson refl refl
