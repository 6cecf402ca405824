-- ===== src/Aggregator.antt =====
-- consensus/src/aggregator.rs: votes and coin shares are collected until they make a certificate.
pub mod Quorums
pub mod Certificates
pub mod Progress
pub mod Proofs
pub mod Coin
use gnosis.Prelude.Words.{add32}
use gnosis.Prelude.Map.{Map, retain, get_or, insert, mem, keys, add}
use gnosis.Error.{
  Outcome, ok, err, authority_reuse_in_qc, authority_reuse_in_proof, panic, authority_reuse_in_coin,
  ◌>>=◌,
}
use gnosis.Prelude.{
  ℕ, [], List, Option, take, ◌∷◌, if◌then◌else◌, ltb, ◌++◌, ◌*◌, ◌%◌, ◌==◌, get_elem?, ◌+◌, sort,
  pair_eq, triple_eq, none, leb, some, nat_eqb, nat_eq,
}
use Prim.Native.String.{[], ◌∷◌}
use Prim.Native.Nat.{ℕ}
use gnosis.Config
use gnosis.Crypto.{Crypto, PublicKey, Signature, Digest}
use gnosis.Config.{Committee, stake, quorum_threshold, random_coin_threshold}
use gnosis.Messages.{HVote, Qc, SpbVote, SpbProof, RandomnessShare, RandomCoin}

pub record QcMaker : Type 0 where
  pub weight : ℕ
  pub votes : List (PublicKey × Signature)
  pub used : List PublicKey

abbrev pub new_qc_maker : QcMaker
new_qc_maker = record { weight = 0; votes = []; used = [] }

-- The QC of a vote and of the signatures collected.
unfoldable pub qc_of : HVote → List (PublicKey × Signature) → Qc
qc_of vote votes = record {
  hash = vote.hash;
  height = vote.height;
  epoch = vote.epoch;
  round = vote.round;
  tag = vote.tag;
  proposer = vote.proposer;
  acceptor = vote.proposer;
  votes = votes;
}

-- QCMaker::append
unfoldable pub append_hvote : QcMaker → HVote → Committee → QcMaker × Outcome (Option Qc)
append_hvote m vote committee =
    let votes = m.votes ++ (vote.author, vote.signature) ∷ [] in
    let weight = add32 m.weight (stake committee vote.author) in
    if mem vote.author m.used
    then (m, err (authority_reuse_in_qc vote.author))
    else if leb (quorum_threshold committee) weight
    then (
      record { weight = 0; votes = votes; used = add vote.author m.used },
      ok (some (qc_of vote votes)),
    )
    else (record { weight = weight; votes = votes; used = add vote.author m.used }, ok none)

pub record ProofMaker : Type 0 where
  pub weight : ℕ
  pub votes : List SpbVote
  pub used : List PublicKey

abbrev pub new_proof_maker : ProofMaker
new_proof_maker = record { weight = 0; votes = []; used = [] }

-- ProofMaker::append: the proof is for the next phase.
unfoldable pub append_spb_vote :
    ProofMaker → SpbVote → Committee → ProofMaker × Outcome (Option SpbProof)
append_spb_vote m vote committee =
    let votes = m.votes ++ vote ∷ [] in
    let weight = add32 m.weight (stake committee vote.author) in
    let proof : SpbProof = record {
      height = vote.height;
      phase = (vote.phase + 1) % 256;
      round = vote.round;
      shares = votes;
    } in
    if mem vote.author m.used
    then (m, err (authority_reuse_in_proof vote.author m.used))
    else if leb (quorum_threshold committee) weight
    then (record { weight = 0; votes = votes; used = add vote.author m.used }, ok (some proof))
    else (record { weight = weight; votes = votes; used = add vote.author m.used }, ok none)

pub record CoinMaker : Type 0 where
  pub weight : ℕ
  pub shares : List RandomnessShare
  pub used : List PublicKey

abbrev pub new_coin_maker : CoinMaker
new_coin_maker = record { weight = 0; shares = []; used = [] }

-- A `BTreeMap` from ids, kept in the order of the ids.
insert_by_id : ℕ → ℕ → Map ℕ ℕ → Map ℕ ℕ
insert_by_id i s [] = (i, s) ∷ []
insert_by_id i s (e ∷ m) =
    let later : Map ℕ ℕ = e ∷ insert_by_id i s m in
    if ltb e.0 i then later else if e.0 == i then (i, s) ∷ m else (i, s) ∷ e ∷ m

shares_by_id : Committee → List RandomnessShare → Map ℕ ℕ → Outcome (Map ℕ ℕ)
unfolding insert_by_id
shares_by_id committee [] sigs = ok sigs
shares_by_id committee (s ∷ shares) sigs = do
  i ← Config.id committee s.author
  shares_by_id committee shares (insert_by_id i s.signature_share sigs)

-- `usize::from_be_bytes`
unfoldable pub from_be_bytes : ℕ → List ℕ → ℕ
from_be_bytes acc [] = acc
from_be_bytes acc (b ∷ bytes) = from_be_bytes (acc * 256 + b) bytes

-- The leader that the combined signature elects.
unfoldable pub coin_leader : Committee → List ℕ → Outcome PublicKey
unfolding from_be_bytes
coin_leader committee sig =
    let i = from_be_bytes 0 (take 8 sig) % Config.size committee in
    elim (get_elem? (sort (keys committee.authorities)) i) [ none ↦ panic | some k ↦ ok k ]

module _ (crypto : Crypto) where
  -- The coin of the shares collected, if their signatures combine.
  unfoldable pub make_coin :
      Committee → RandomnessShare → List RandomnessShare → Outcome (Option RandomCoin)
  unfolding shares_by_id coin_leader
  make_coin committee share shares = do
    sigs ← shares_by_id committee shares []
    elim (crypto.combine_signatures sigs) [
      | none ↦ ok none
      | some sig ↦ do
        leader ← coin_leader committee sig
        ok (
            some (record {
              height = share.height;
              epoch = share.epoch;
              round = share.round;
              leader = leader;
              shares = shares;
            }))
    ]

  -- SMVBARandomCoinMaker::append
  unfoldable pub append_share :
      CoinMaker → RandomnessShare → Committee → CoinMaker × Outcome (Option RandomCoin)
  unfolding make_coin
  append_share m share committee =
      let shares = m.shares ++ share ∷ [] in
      let weight = add32 m.weight (stake committee share.author) in
      let m' : CoinMaker = record {
        weight = weight;
        shares = shares;
        used = add share.author m.used;
      } in
      if mem share.author m.used
      then (m, err (authority_reuse_in_coin share.author))
      else if nat_eqb weight (random_coin_threshold committee)
      then (m', make_coin committee share shares)
      else (m', ok none)

pub record Aggregator : Type 0 where
  pub committee : Committee
  pub hs_votes_aggregators : Map (ℕ × Digest) QcMaker
  pub fallback_votes_aggregators : Map (ℕ × ℕ) QcMaker
  pub spb_votes_aggregators : Map (ℕ × ℕ × ℕ) ProofMaker
  pub pre_votes_aggregators : Map (ℕ × ℕ) ProofMaker
  pub smvba_randomcoin_aggregators : Map (ℕ × ℕ) CoinMaker

unfoldable pub new : Committee → Aggregator
new committee = record {
  committee = committee;
  hs_votes_aggregators = [];
  fallback_votes_aggregators = [];
  spb_votes_aggregators = [];
  pre_votes_aggregators = [];
  smvba_randomcoin_aggregators = [];
}

unfoldable pub add_hs_vote : Aggregator → HVote → Aggregator × Outcome (Option Qc)
add_hs_vote a vote =
    let k : ℕ × Digest = (vote.height, vote.hash) in
    let (m, r) = append_hvote (get_or k new_qc_maker a.hs_votes_aggregators) vote a.committee in
    (record a { hs_votes_aggregators = insert k m a.hs_votes_aggregators }, r)

unfoldable pub add_fallback_vote : Aggregator → HVote → Aggregator × Outcome (Option Qc)
add_fallback_vote a vote =
    let k : ℕ × ℕ = (vote.height, vote.round) in
    let (m, r) =
      append_hvote (get_or k new_qc_maker a.fallback_votes_aggregators) vote a.committee in
    (record a { fallback_votes_aggregators = insert k m a.fallback_votes_aggregators }, r)

unfoldable pub add_spb_vote : Aggregator → SpbVote → Aggregator × Outcome (Option SpbProof)
add_spb_vote a vote =
    let k : ℕ × ℕ × ℕ = (vote.height, vote.round, vote.phase) in
    let (m, r) =
      append_spb_vote (get_or k new_proof_maker a.spb_votes_aggregators) vote a.committee in
    (record a { spb_votes_aggregators = insert k m a.spb_votes_aggregators }, r)

unfoldable pub add_pre_vote : Aggregator → SpbVote → Aggregator × Outcome (Option SpbProof)
add_pre_vote a vote =
    let k : ℕ × ℕ = (vote.height, vote.round) in
    let (m, r) =
      append_spb_vote (get_or k new_proof_maker a.pre_votes_aggregators) vote a.committee in
    (record a { pre_votes_aggregators = insert k m a.pre_votes_aggregators }, r)

unfoldable pub add_smvba_random :
    Crypto → Aggregator → RandomnessShare → Aggregator × Outcome (Option RandomCoin)
add_smvba_random crypto a share =
    let k : ℕ × ℕ = (share.height, share.round) in
    let (m, r) =
      append_share crypto (get_or k new_coin_maker a.smvba_randomcoin_aggregators) share
        a.committee in
    (record a { smvba_randomcoin_aggregators = insert k m a.smvba_randomcoin_aggregators }, r)

unfoldable pub cleanup_hs_vote : Aggregator → ℕ → Aggregator
cleanup_hs_vote a height = record a {
  hs_votes_aggregators = retain (λ k. ltb height k.0) a.hs_votes_aggregators;
}

unfoldable pub cleanup_spb_vote : Aggregator → ℕ → Aggregator
cleanup_spb_vote a height = record a {
  spb_votes_aggregators = retain (λ k. ltb height k.0) a.spb_votes_aggregators;
  pre_votes_aggregators = retain (λ k. ltb height k.0) a.pre_votes_aggregators;
}

unfoldable pub cleanup_mvba_random : Aggregator → ℕ → Aggregator
cleanup_mvba_random a height = record a {
  smvba_randomcoin_aggregators = retain (λ k. ltb height k.0) a.smvba_randomcoin_aggregators;
}
