-- ===== src/Messages/Build.antt =====
-- The constructors of the messages (`new` in consensus/src/messages.rs): each fills the fields in
-- and has the signature service sign the digest.
use gnosis.Error.{Outcome, panic, ok}
use gnosis.Messages.Digests.{
  block_digest, hvote_digest, prepare_digest, value_digest, share_digest, spb_vote_digest,
  done_digest, pre_vote_digest, mvote_digest, halt_digest,
}
use gnosis.Prelude.{ℕ, List, none, some}
use gnosis.Crypto.{Crypto, PublicKey, default_signature, Digest}
use gnosis.Messages.{
  Block, HVote, Qc, ℕ, SpbValue, List, PrePare, SpbVote, RandomnessShare, PreVoteTag, MVoteTag,
  SpbProof, MDoneAndShare, MPreVote, MVote, MHalt,
}

module _ (crypto : Crypto) where
  open crypto use {sign, tss_sign}

  unfoldable pub new_block :
      Qc → PublicKey → (height epoch round : ℕ) → List Digest → (tag : ℕ) → Block
  new_block qc author height epoch round payload tag =
      let block : Block = record {
        qc = qc;
        author = author;
        height = height;
        epoch = epoch;
        payload = payload;
        signature = default_signature;
        tag = tag;
        round = round;
      } in
      record block { signature = sign (block_digest crypto block) }

  unfoldable pub new_hvote : Block → PublicKey → ℕ → HVote
  new_hvote block author tag =
      let vote : HVote = record {
        hash = block_digest crypto block;
        height = block.height;
        round = block.round;
        epoch = block.epoch;
        proposer = block.author;
        tag = tag;
        author = author;
        signature = default_signature;
      } in
      record vote { signature = sign (hvote_digest crypto vote) }

  unfoldable pub new_prepare : PublicKey → (epoch height : ℕ) → Qc → (val : ℕ) → PrePare
  new_prepare author epoch height qc val =
      let prepare : PrePare = record {
        author = author;
        epoch = epoch;
        height = height;
        val = val;
        qc = qc;
        signature = default_signature;
      } in
      record prepare { signature = sign (prepare_digest crypto prepare) }

  unfoldable pub new_spb_vote : SpbValue → PublicKey → SpbVote
  new_spb_vote value author =
      let vote : SpbVote = record {
        hash = value_digest crypto value;
        phase = value.phase;
        height = value.block.height;
        epoch = value.block.epoch;
        round = value.round;
        proposer = value.block.author;
        author = author;
        signature = default_signature;
      } in
      record vote { signature = sign (spb_vote_digest crypto vote) }

  -- `request_tss_signature` gives nothing without a threshold key, and `unwrap` panics.
  unfoldable pub new_share : (height epoch round : ℕ) → PublicKey → Outcome RandomnessShare
  new_share height epoch round author = elim (tss_sign (share_digest crypto round height epoch)) [
    | none ↦ panic
    | some s ↦ ok (record {
      height = height;
      epoch = epoch;
      round = round;
      author = author;
      signature_share = s;
    })
  ]

  unfoldable pub new_done : PublicKey → (epoch height round : ℕ) → RandomnessShare → MDoneAndShare
  new_done author epoch height round share =
      let done : MDoneAndShare = record {
        author = author;
        signature = default_signature;
        epoch = epoch;
        height = height;
        round = round;
        share = share;
      } in
      record done { signature = sign (done_digest crypto done) }

  unfoldable pub new_pre_vote :
      (author leader : PublicKey) (round height epoch : ℕ) → PreVoteTag → MPreVote
  new_pre_vote author leader round height epoch tag =
      let vote : MPreVote = record {
        author = author;
        signature = default_signature;
        leader = leader;
        round = round;
        height = height;
        epoch = epoch;
        tag = tag;
      } in
      record vote { signature = sign (pre_vote_digest crypto vote) }

  unfoldable pub new_mvote : (author leader : PublicKey) (round height epoch : ℕ) → MVoteTag → MVote
  new_mvote author leader round height epoch tag =
      let vote : MVote = record {
        author = author;
        leader = leader;
        round = round;
        height = height;
        epoch = epoch;
        signature = default_signature;
        tag = tag;
      } in
      record vote { signature = sign (mvote_digest crypto vote) }

  unfoldable pub new_halt : (author leader : PublicKey) → SpbValue → SpbProof → MHalt
  new_halt author leader value proof =
      let halt : MHalt = record {
        author = author;
        leader = leader;
        value = value;
        proof = proof;
        round = proof.round;
        height = proof.height;
        epoch = value.block.epoch;
        signature = default_signature;
      } in
      record halt { signature = sign (halt_digest crypto halt) }
