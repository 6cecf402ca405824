-- ===== src/Crypto/Bytes.antt =====
-- Numbers and their bytes.
use mathlib.Core.List.{reverse_aux, reverse-reverse}
use gnosis.Prelude.Words.{le_bytes, be_bytes}
use gnosis.Prelude.{
  ℕ, List, [], ◌∷◌, ◌+◌, ◌*◌, ◌<◌, ◌≡◌, All, length, zero, suc, arith, reverse, ◌/◌, ◌%◌, ap, refl,
  ◌∙◌, sym,
}

-- The number that the bytes stand for, the lowest first.
unfoldable pub of_le_bytes : List ℕ → ℕ
of_le_bytes [] = 0
of_le_bytes (b ∷ bytes) = b + 256 * of_le_bytes bytes

-- The number that the bytes stand for, the highest first: an array of bytes as a number.
unfoldable pub of_be_bytes : List ℕ → ℕ
of_be_bytes bytes = of_le_bytes (reverse bytes)

-- The least number that does not fit.
unfoldable pub bytes_mod : ℕ → ℕ
bytes_mod zero = 1
bytes_mod (suc k) = 256 * bytes_mod k

of_le_bytes-le_bytes : (k n : ℕ) → n < bytes_mod k → of_le_bytes (le_bytes k n) ≡ n
unfolding of_le_bytes le_bytes bytes_mod
of_le_bytes-le_bytes zero n h = omega (arith, h)
of_le_bytes-le_bytes (suc k) n h =
    omega (arith, of_le_bytes-le_bytes k (n / 256) (omega (arith, h)))

le_bytes-of_le_bytes :
    (bytes : List ℕ)
    → All (λ b. b < 256) bytes
    → le_bytes (length bytes) (of_le_bytes bytes) ≡ bytes
unfolding of_le_bytes le_bytes
le_bytes-of_le_bytes [] h = refl
le_bytes-of_le_bytes (b ∷ bytes) h =
    let low : (b + 256 * of_le_bytes bytes) % 256 ≡ b = omega (arith, h.0) in
    let high : (b + 256 * of_le_bytes bytes) / 256 ≡ of_le_bytes bytes = omega (arith, h.0) in
    rw (low, high) (ap (λ rest. b ∷ rest) (le_bytes-of_le_bytes bytes h.1))

length-reverse_aux : (xs acc : List ℕ) → length (reverse_aux xs acc) ≡ length xs + length acc
length-reverse_aux [] acc = omega arith
length-reverse_aux (x ∷ xs) acc = omega (arith, length-reverse_aux xs (x ∷ acc))

All-reverse_aux :
    (P : ℕ → Type 0) (xs acc : List ℕ) → All P xs → All P acc → All P (reverse_aux xs acc)
All-reverse_aux P [] acc h g = g
All-reverse_aux P (x ∷ xs) acc h g = All-reverse_aux P xs (x ∷ acc) h.1 (h.0, g)

pub of_be_bytes-be_bytes : (k n : ℕ) → n < bytes_mod k → of_be_bytes (be_bytes k n) ≡ n
unfolding of_be_bytes be_bytes
of_be_bytes-be_bytes k n h =
    ap of_le_bytes (reverse-reverse (le_bytes k n)) ∙ of_le_bytes-le_bytes k n h

pub be_bytes-of_be_bytes :
    (bytes : List ℕ)
    → All (λ b. b < 256) bytes
    → be_bytes (length bytes) (of_be_bytes bytes) ≡ bytes
unfolding of_be_bytes be_bytes
be_bytes-of_be_bytes bytes h =
    ap (λ n. reverse (le_bytes n (of_le_bytes (reverse bytes)))) (sym same_length)
    ∙ ap reverse (le_bytes-of_le_bytes (reverse bytes) (All-reverse_aux _ bytes [] h tt))
    ∙ reverse-reverse bytes
  where
    same_length : length (reverse bytes) ≡ length bytes
    same_length = omega (arith, length-reverse_aux bytes [])

pub length-be_bytes : (k n : ℕ) → length (be_bytes k n) ≡ k
unfolding be_bytes le_bytes
length-be_bytes k n = omega (arith, length-reverse_aux (le_bytes k n) [], length-le_bytes k n)
  where
    length-le_bytes : (k n : ℕ) → length (le_bytes k n) ≡ k
    length-le_bytes zero n = refl
    length-le_bytes (suc k) n = omega (arith, length-le_bytes k (n / 256))
