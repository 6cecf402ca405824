-- ===== src/Messages/Digests.antt =====
-- The digests of the messages (the `Hash` implementations of consensus/src/messages.rs): SHA-512 of
-- the bytes that each implementation feeds to the hasher, in its order.
use gnosis.Prelude.Words.{be_bytes, le_bytes, codes}
use gnosis.Prelude.{List, ℕ, ◌∷◌, ◌++◌, []}
use gnosis.Crypto.{Crypto, Digest}
use gnosis.Messages.{
  Block, HVote, PrePare, SpbValue, SpbVote, Qc, PreVoteTag, MVoteTag, List, ℕ, MDoneAndShare,
  MPreVote, MVote, MHalt, pre_yes, vote_yes, pre_no, vote_no,
}

-- `self.tag.to_string()` of a `PreVoteTag` and an `MVoteTag`.
pre_vote_tag_bytes : PreVoteTag → List ℕ
pre_vote_tag_bytes (pre_yes v p) = codes "PreVote-Yes"
pre_vote_tag_bytes pre_no = codes "PreVote-No"

vote_tag_bytes : MVoteTag → List ℕ
vote_tag_bytes (vote_yes v p w) = codes "Vote-Yes"
vote_tag_bytes vote_no = codes "Vote-No"

payload_bytes : List Digest → List ℕ
payload_bytes [] = []
payload_bytes (x ∷ xs) = be_bytes 32 x ++ payload_bytes xs

module _ (crypto : Crypto) where
  open crypto use {sha512}

  unfoldable pub block_digest : Block → Digest
  unfolding payload_bytes
  block_digest b = sha512 (
      be_bytes 32 b.author
      ++ (le_bytes 8 b.height
          ++ (le_bytes 8 b.epoch
              ++ (payload_bytes b.payload ++ (be_bytes 32 b.qc.hash ++ le_bytes 1 b.tag)))))

  unfoldable pub hvote_digest : HVote → Digest
  hvote_digest v = sha512 (
      be_bytes 32 v.hash
      ++ (le_bytes 8 v.height
          ++ (le_bytes 8 v.round
              ++ (le_bytes 1 v.tag ++ (le_bytes 8 v.epoch ++ be_bytes 32 v.proposer)))))

  unfoldable pub qc_digest : Qc → Digest
  qc_digest q = sha512 (
      be_bytes 32 q.hash
      ++ (le_bytes 8 q.height
          ++ (le_bytes 8 q.round
              ++ (le_bytes 1 q.tag ++ (le_bytes 8 q.epoch ++ be_bytes 32 q.proposer)))))

  unfoldable pub prepare_digest : PrePare → Digest
  prepare_digest p = sha512 (le_bytes 1 p.val)

  unfoldable pub aba_val_digest : ℕ → Digest
  aba_val_digest val = sha512 (le_bytes 1 val)

  unfoldable pub value_digest : SpbValue → Digest
  value_digest v =
      sha512 (be_bytes 32 (block_digest v.block) ++ (le_bytes 8 v.round ++ le_bytes 1 v.phase))

  unfoldable pub spb_vote_digest : SpbVote → Digest
  spb_vote_digest v = sha512 (be_bytes 32 v.hash ++ be_bytes 1 v.phase)

  unfoldable pub done_digest : MDoneAndShare → Digest
  done_digest d =
      sha512 (
        be_bytes 32 d.author ++ (be_bytes 8 d.round ++ (le_bytes 8 d.height ++ le_bytes 8 d.epoch)))

  unfoldable pub pre_vote_digest : MPreVote → Digest
  unfolding pre_vote_tag_bytes
  pre_vote_digest v = sha512 (
      be_bytes 32 v.author
      ++ (be_bytes 32 v.leader
          ++ (be_bytes 8 v.round
              ++ (le_bytes 8 v.height ++ (le_bytes 8 v.epoch ++ pre_vote_tag_bytes v.tag)))))

  unfoldable pub mvote_digest : MVote → Digest
  unfolding vote_tag_bytes
  mvote_digest v = sha512 (
      be_bytes 32 v.author
      ++ (be_bytes 8 v.round
          ++ (le_bytes 8 v.height ++ (le_bytes 8 v.epoch ++ vote_tag_bytes v.tag))))

  unfoldable pub halt_digest : MHalt → Digest
  halt_digest h =
      sha512 (
        be_bytes 32 h.author ++ (le_bytes 8 h.round ++ (le_bytes 8 h.height ++ le_bytes 8 h.epoch)))

  -- What `RandomnessShare::new` and its `Hash` digest.
  unfoldable pub share_digest : ℕ → ℕ → ℕ → Digest
  share_digest round height epoch =
      sha512 (le_bytes 8 round ++ (le_bytes 8 height ++ le_bytes 8 epoch))
