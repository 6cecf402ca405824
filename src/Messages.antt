-- ===== src/Messages.antt =====
-- consensus/src/messages.rs: the messages of the consensus as records. Their digests, constructors
-- and checks are in the modules below.
pub mod Digests
pub mod Checks
pub mod Build
pub mod Quorums
pub mod Agreement
pub mod Proofs
use gnosis.Prelude.{ℕ, ◌≡◌, Bool, true, false, ◌&&◌, not, List, [], Option, nat_eqb}
use gnosis.Crypto.{
  PublicKey, Digest, Signature, SignatureShare, default_digest, default_key, default_signature,
}

-- The phases and paths of consensus/src/core.rs.
abbrev pub opt : ℕ
opt = 0

abbrev pub pes : ℕ
pes = 1

abbrev pub fallback : ℕ
fallback = 2

abbrev pub init_phase : ℕ
init_phase = 0

abbrev pub lock_phase : ℕ
lock_phase = 1

abbrev pub fin_phase : ℕ
fin_phase = 2

pub record Qc : Type 0 where
  pub hash : Digest
  pub height : ℕ
  pub epoch : ℕ
  pub round : ℕ
  pub tag : ℕ
  pub proposer : PublicKey
  pub acceptor : PublicKey
  pub votes : List (PublicKey × Signature)

abbrev pub genesis_qc : Qc
genesis_qc = record {
  hash = default_digest;
  height = 0;
  epoch = 0;
  round = 0;
  tag = 0;
  proposer = default_key;
  acceptor = default_key;
  votes = [];
}

-- PartialEq for QC. The source compares `self.epoch` with itself.
unfoldable pub qc_eq : Qc → Qc → Bool
qc_eq self other =
    nat_eqb self.hash other.hash
    && nat_eqb self.height other.height
    && nat_eqb self.epoch self.epoch
    && nat_eqb self.proposer other.proposer

unfoldable pub timeout : Qc → Bool
timeout qc = nat_eqb qc.hash default_digest && not (nat_eqb qc.height 0)

pub record Block : Type 0 where
  pub qc : Qc
  pub author : PublicKey
  pub height : ℕ
  pub epoch : ℕ
  pub payload : List Digest
  pub signature : Signature
  pub tag : ℕ
  pub round : ℕ

abbrev pub genesis : Block
genesis = record {
  qc = genesis_qc;
  author = default_key;
  height = 0;
  epoch = 0;
  payload = [];
  signature = default_signature;
  tag = 0;
  round = 0;
}

-- Block::parent
abbrev pub parent : Block → Digest
parent b = b.qc.hash

pub record HVote : Type 0 where
  pub hash : Digest
  pub height : ℕ
  pub round : ℕ
  pub epoch : ℕ
  pub proposer : PublicKey
  pub tag : ℕ
  pub author : PublicKey
  pub signature : Signature

pub record PrePare : Type 0 where
  pub author : PublicKey
  pub epoch : ℕ
  pub height : ℕ
  pub val : ℕ
  pub qc : Qc
  pub signature : Signature

pub record SpbValue : Type 0 where
  pub val : ℕ
  pub signatures : List (PublicKey × Signature)
  pub block : Block
  pub round : ℕ
  pub phase : ℕ

pub record SpbVote : Type 0 where
  pub hash : Digest
  pub phase : ℕ
  pub height : ℕ
  pub epoch : ℕ
  pub round : ℕ
  pub proposer : PublicKey
  pub author : PublicKey
  pub signature : Signature

pub record SpbProof : Type 0 where
  pub phase : ℕ
  pub round : ℕ
  pub height : ℕ
  pub shares : List SpbVote

pub record RandomnessShare : Type 0 where
  pub height : ℕ
  pub epoch : ℕ
  pub round : ℕ
  pub author : PublicKey
  pub signature_share : SignatureShare

pub record RandomCoin : Type 0 where
  pub height : ℕ
  pub epoch : ℕ
  pub round : ℕ
  pub leader : PublicKey
  pub shares : List RandomnessShare

pub record MDoneAndShare : Type 0 where
  pub author : PublicKey
  pub signature : Signature
  pub epoch : ℕ
  pub height : ℕ
  pub round : ℕ
  pub share : RandomnessShare

pub data PreVoteTag : Type 0 where
  pre_yes : SpbValue → SpbProof → PreVoteTag
  pre_no : PreVoteTag

unfoldable pub is_yes : PreVoteTag → Bool
is_yes (pre_yes v p) = true
is_yes pre_no = false

pub record MPreVote : Type 0 where
  pub author : PublicKey
  pub signature : Signature
  pub leader : PublicKey
  pub round : ℕ
  pub height : ℕ
  pub epoch : ℕ
  pub tag : PreVoteTag

pub data MVoteTag : Type 0 where
  vote_yes : SpbValue → SpbProof → SpbVote → MVoteTag
  vote_no : MVoteTag

pub record MVote : Type 0 where
  pub author : PublicKey
  pub leader : PublicKey
  pub round : ℕ
  pub height : ℕ
  pub epoch : ℕ
  pub signature : Signature
  pub tag : MVoteTag

pub record MHalt : Type 0 where
  pub author : PublicKey
  pub leader : PublicKey
  pub value : SpbValue
  pub proof : SpbProof
  pub round : ℕ
  pub height : ℕ
  pub epoch : ℕ
  pub signature : Signature

-- ConsensusMessage of consensus/src/core.rs.
pub data ConsensusMessage : Type 0 where
  hs_propose : Block → ConsensusMessage
  hs_vote : HVote → ConsensusMessage
  hs_loop_back : Block → ConsensusMessage
  sync_request : Digest → PublicKey → ConsensusMessage
  sync_reply : Block → ConsensusMessage
  spb_propose : SpbValue → SpbProof → ConsensusMessage
  spb_vote : SpbVote → ConsensusMessage
  spb_finish : SpbValue → SpbProof → ConsensusMessage
  spb_done_and_share : MDoneAndShare → ConsensusMessage
  smvba_pre_vote : MPreVote → ConsensusMessage
  smvba_vote : MVote → ConsensusMessage
  smvba_halt : MHalt → ConsensusMessage
  par_prepare : PrePare → ConsensusMessage
  par_loop_back : Block → ConsensusMessage
  fb_propose : Block → ConsensusMessage
  fb_vote : HVote → ConsensusMessage
  fb_loop_back : Block → ConsensusMessage
