-- ===== src/Crypto/Roundtrip.antt =====
-- What comes back from base64, and from the halves of a signature (crypto/src/lib.rs).
use gnosis.Error.{ok}
use gnosis.Prelude.Words.{be_bytes}
use gnosis.Crypto.{PublicKey, Digest, Signature}
use gnosis.Prelude.{
  ℕ, List, take, ◌<◌, ◌≤◌, All, ◌≡◌, length, take-all, ◌++◌, suc, true, ◌∷◌, subst, ◌+◌, zero, ap,
  ltb, arith, [], false, refl, ◌∙◌,
}
use gnosis.Crypto.Keys.{
  Base64, IsBase64, key, Dalek, IsDalek, SecretKey, first_bytes, drop, flatten, new_signature,
  public_to_base64, public_from_base64, secret_to_base64, secret_from_base64,
}
use gnosis.Crypto.Bytes.{
  bytes_mod, of_be_bytes, of_be_bytes-be_bytes, be_bytes-of_be_bytes, length-be_bytes,
}

first_bytes-be_bytes : (k n : ℕ) → n < bytes_mod k → first_bytes k (be_bytes k n) ≡ key n
unfolding first_bytes
first_bytes-be_bytes k n h =
    let same = length-be_bytes k n in
    let whole : take k (be_bytes k n) ≡ be_bytes k n =
      subst (λ i. take i (be_bytes k n) ≡ be_bytes k n) same (take-all (be_bytes k n)) in
    let enough : ltb (length (be_bytes k n)) k ≡ false = ground (arith, same) in
    rw (enough, whole) (ap key (of_be_bytes-be_bytes k n h))

-- A public key of 32 bytes, and a secret key of 64, come back from base64 as they were, if base64
-- decodes what it encodes.
from_base64-to_base64 :
    (base64 : Base64) (public : PublicKey) (secret : SecretKey)
    → IsBase64 base64
    → public < bytes_mod 32
    → secret < bytes_mod 64
    → (public_from_base64 base64 (public_to_base64 base64 public) ≡ key public)
      × (secret_from_base64 base64 (secret_to_base64 base64 secret) ≡ key secret)
unfolding public_from_base64 public_to_base64 secret_from_base64 secret_to_base64
from_base64-to_base64 base64 public secret is_base64 h g = (
  rw (public_to_base64, public_from_base64, is_base64.decode-encode (be_bytes 32 public))
      (first_bytes-be_bytes 32 public h),
  rw (secret_to_base64, secret_from_base64, is_base64.decode-encode (be_bytes 64 secret))
      (first_bytes-be_bytes 64 secret g),
)

take-drop : (n : ℕ) (xs : List ℕ) → take n xs ++ drop n xs ≡ xs
unfolding drop
take-drop zero xs = refl
take-drop (suc n) [] = refl
take-drop (suc n) (x ∷ xs) = ap (λ ys. x ∷ ys) (take-drop n xs)

length-take-drop :
    (n : ℕ) (xs : List ℕ)
    → n ≤ length xs
    → (length (take n xs) ≡ n) × (length (drop n xs) + n ≡ length xs)
unfolding drop
length-take-drop zero xs h = (refl, omega arith)
length-take-drop (suc n) [] h = ground (arith, h)
length-take-drop (suc n) (x ∷ xs) h =
    let (t, s) = length-take-drop n xs (omega (arith, h)) in (ap suc t, omega (arith, s))

All-take-drop :
    (P : ℕ → Type 0) (n : ℕ) (xs : List ℕ) → All P xs → All P (take n xs) × All P (drop n xs)
unfolding drop
All-take-drop P zero xs h = (tt, h)
All-take-drop P (suc n) [] h = (tt, tt)
All-take-drop P (suc n) (x ∷ xs) h = let (t, s) = All-take-drop P n xs h.1 in ((h.0, t), s)

-- A signature made with a key that loads has, flattened, the 64 bytes that ed25519 signed with.
pub flatten-new_signature :
    (dalek : Dalek) (digest : Digest) (secret : SecretKey)
    → IsDalek dalek
    → dalek.loads secret ≡ true
    → (s : Signature) × (new_signature dalek digest secret ≡ ok s)
      × (flatten s ≡ dalek.sign secret digest)
unfolding new_signature flatten
flatten-new_signature dalek digest secret is_dalek loaded = (
  record { part1 = of_be_bytes (take 32 bytes); part2 = of_be_bytes (take 32 (drop 32 bytes)) },
  rw loaded refl,
  ap (λ xs. xs ++ be_bytes 32 (of_be_bytes (take 32 (drop 32 bytes))))
        (back (take 32 bytes) lengths.0 small.0)
      ∙ ap (λ xs. take 32 bytes ++ be_bytes 32 (of_be_bytes xs)) whole
      ∙ ap (λ xs. take 32 bytes ++ xs) (back (drop 32 bytes) rest small.1)
      ∙ take-drop 32 bytes,
)
  where
    bytes : List ℕ
    bytes = dalek.sign secret digest

    lengths : (length (take 32 bytes) ≡ 32) × (length (drop 32 bytes) + 32 ≡ length bytes)
    lengths = length-take-drop 32 bytes (omega (arith, is_dalek.size secret digest))

    small : All (λ b. b < 256) (take 32 bytes) × All (λ b. b < 256) (drop 32 bytes)
    small = All-take-drop _ 32 bytes (is_dalek.bytes secret digest)

    back :
        (xs : List ℕ) → length xs ≡ 32 → All (λ b. b < 256) xs → be_bytes 32 (of_be_bytes xs) ≡ xs
    back xs size fit =
        subst (λ n. be_bytes n (of_be_bytes xs) ≡ xs) size (be_bytes-of_be_bytes xs fit)

    rest : length (drop 32 bytes) ≡ 32
    rest = omega (arith, lengths.1, is_dalek.size secret digest)

    whole : take 32 (drop 32 bytes) ≡ drop 32 bytes
    whole = subst (λ n. take n (drop 32 bytes) ≡ drop 32 bytes) rest (take-all (drop 32 bytes))
