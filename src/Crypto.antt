-- ===== src/Crypto.antt =====
-- crypto/src/lib.rs. Keys and digests are arrays of 32 bytes, read as big-endian numbers, so that
-- the derived order of keys is that of the numbers. ed25519, SHA-512 and the threshold signatures
-- are other crates: their functions are the fields of `Crypto`.
pub mod Bytes
pub mod Keys
pub mod Roundtrip
use gnosis.Prelude.{ℕ, Bool, true, ◌&&◌, List, map, Option, if◌then◌else◌, all, ◌≡◌}
use gnosis.Error.{Outcome, ok, err, invalid_signature}

abbrev pub PublicKey : Type 0
PublicKey = ℕ

abbrev pub Digest : Type 0
Digest = ℕ

-- `Digest::default()` and `PublicKey::default()` are 32 zero bytes.
abbrev pub default_digest : Digest
default_digest = 0

abbrev pub default_key : PublicKey
default_key = 0

pub record Signature : Type 0 where
  pub part1 : ℕ
  pub part2 : ℕ

abbrev pub default_signature : Signature
default_signature = record { part1 = 0; part2 = 0 }

-- A share of a threshold signature, as an opaque number.
abbrev pub SignatureShare : Type 0
SignatureShare = ℕ

pub record Crypto : Type 0 where
  -- The first 32 bytes of SHA-512.
  pub sha512 : List ℕ → Digest
  -- Whether `from_bytes` accepts the bytes of a signature, or of a key.
  pub signature_from_bytes : Signature → Bool
  pub key_from_bytes : PublicKey → Bool
  -- ed25519_dalek
  pub verify_strict : PublicKey → Digest → Signature → Bool
  pub batch : List (Digest × Signature × PublicKey) → Bool
  -- The node's own keys, behind the signature service; `none` if it has no threshold key.
  pub sign : Digest → Signature
  pub tss_sign : Digest → Option SignatureShare
  -- `pk_set.public_key_share(id).verify(share, digest)`, and the bytes of `combine_signatures`.
  pub tss_verify : ℕ → SignatureShare → Digest → Bool
  pub combine_signatures : List (ℕ × SignatureShare) → Option (List ℕ)

-- What the crate documents of a batch: it is accepted exactly if every signature of it is.
pub record BatchIsSound (c : Crypto) : Type 0 where
  pub accepts :
      (d : Digest) (votes : List (PublicKey × Signature))
      → all (λ v. c.verify_strict v.0 d v.1) votes ≡ true
      → c.batch (map (λ v. (d, v.1, v.0)) votes) ≡ true
  pub rejects :
      (d : Digest) (votes : List (PublicKey × Signature))
      → c.batch (map (λ v. (d, v.1, v.0)) votes) ≡ true
      → all (λ v. c.verify_strict v.0 d v.1) votes ≡ true

module _ (crypto : Crypto) where
  open crypto use {signature_from_bytes, key_from_bytes, verify_strict, batch}

  -- Signature::verify
  unfoldable pub verify : Signature → Digest → PublicKey → Outcome (Unit {0})
  verify s digest key =
      if signature_from_bytes s && key_from_bytes key && verify_strict key digest s
      then ok tt
      else err invalid_signature

  -- Signature::verify_batch
  unfoldable pub verify_batch : Digest → List (PublicKey × Signature) → Outcome (Unit {0})
  verify_batch digest votes =
      if all (λ v. signature_from_bytes v.1 && key_from_bytes v.0) votes
        && batch (map (λ v. (digest, v.1, v.0)) votes)
      then ok tt
      else err invalid_signature
