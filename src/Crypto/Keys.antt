-- ===== src/Crypto/Keys.antt =====
-- Keys in base64, signatures as two halves, and the signature service (crypto/src/lib.rs). base64,
-- ed25519_dalek and threshold_crypto are parameters.
use gnosis.Crypto.Bytes.{of_be_bytes}
use gnosis.Prelude.Words.{be_bytes}
use gnosis.Prelude.{
  none, ℕ, List, Bool, Option, if◌then◌else◌, length, ltb, some, suc, ◌++◌, ◌<◌, ◌≡◌, take, All,
  ◌∷◌, zero, [],
}
use gnosis.Error.{Outcome, ok, panic}
use gnosis.Crypto.{PublicKey, Digest, Signature, SignatureShare}

-- 64 bytes, as a big-endian number.
abbrev pub SecretKey : Type 0
SecretKey = ℕ

-- The crate base64: `encode`, and `decode`, which may fail.
pub record Base64 : Type 1 where
  pub Text : Type 0
  pub encode : List ℕ → Text
  pub decode : Text → Option (List ℕ)

-- What is documented of it.
pub record IsBase64 (base64 : Base64) : Type 0 where
  pub decode-encode : (bytes : List ℕ) → base64.decode (base64.encode bytes) ≡ some bytes

-- A result, an error of `decode`, or a panic.
pub data Decoded : Type 0 where
  key : ℕ → Decoded
  decode_error : Decoded
  out_of_range : Decoded

-- An array of the first bytes: the slice panics if there are too few.
unfoldable pub first_bytes : ℕ → List ℕ → Decoded
first_bytes n bytes =
    if ltb (length bytes) n then out_of_range else key (of_be_bytes (take n bytes))

module _ (base64 : Base64) where
  open base64 use {Text, encode, decode}

  -- PublicKey::to_base64
  unfoldable pub public_to_base64 : PublicKey → Text
  public_to_base64 k = encode (be_bytes 32 k)

  -- PublicKey::from_base64
  unfoldable pub public_from_base64 : Text → Decoded
  unfolding first_bytes
  public_from_base64 text = elim (decode text) [
    | none ↦ decode_error
    | some bytes ↦ first_bytes 32 bytes
  ]

  -- SecretKey::to_base64
  unfoldable pub secret_to_base64 : SecretKey → Text
  secret_to_base64 k = encode (be_bytes 64 k)

  -- SecretKey::from_base64
  unfoldable pub secret_from_base64 : Text → Decoded
  unfolding first_bytes
  secret_from_base64 text = elim (decode text) [
    | none ↦ decode_error
    | some bytes ↦ first_bytes 64 bytes
  ]

-- ed25519_dalek: whether a key pair can be loaded, and the bytes of its signatures; and the shares of
-- threshold_crypto.
pub record Dalek : Type 0 where
  pub loads : SecretKey → Bool
  pub sign : SecretKey → Digest → List ℕ
  pub sign_share : ℕ → Digest → SignatureShare

-- A signature is an array of 64 bytes.
pub record IsDalek (dalek : Dalek) : Type 0 where
  pub size : (k : SecretKey) (d : Digest) → length (dalek.sign k d) ≡ 64
  pub bytes : (k : SecretKey) (d : Digest) → All (λ b. b < 256) (dalek.sign k d)

unfoldable pub drop : ℕ → List ℕ → List ℕ
drop zero xs = xs
drop (suc n) [] = []
drop (suc n) (x ∷ xs) = drop n xs

-- Signature::flatten
unfoldable pub flatten : Signature → List ℕ
flatten s = be_bytes 32 s.part1 ++ be_bytes 32 s.part2

pub record SignatureService : Type 0 where
  pub secret : SecretKey
  pub tss_secret : Option ℕ

module _ (dalek : Dalek) where
  open dalek use {loads, sign, sign_share}

  -- Signature::new
  unfoldable pub new_signature : Digest → SecretKey → Outcome Signature
  unfolding drop
  new_signature digest secret =
      if loads secret
      then ok (record {
        part1 = of_be_bytes (take 32 (sign secret digest));
        part2 = of_be_bytes (take 32 (drop 32 (sign secret digest)));
      })
      else panic

  -- The service's task panics if the key does not load, and then the request panics.
  unfoldable pub request_signature : SignatureService → Digest → Outcome Signature
  unfolding new_signature
  request_signature service digest = new_signature digest service.secret

  unfoldable pub request_tss_signature : SignatureService → Digest → Option SignatureShare
  request_tss_signature service digest = elim service.tss_secret [
    | none ↦ none
    | some share ↦ some (sign_share share digest)
  ]
