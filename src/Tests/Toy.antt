-- ===== src/Tests/Toy.antt =====
-- A committee of four authorities of stake 1, its blocks, votes and QCs, and a node. The cryptography
-- is a toy: a digest is a sum of bytes, and a signature is valid for a key that it names.
use gnosis.Core.Loop.{Event, core_message}
use gnosis.Core.Round.{new_core}
use gnosis.Config.Stake.{Fits}
use gnosis.Core.State.{Env, Core, accept}
use gnosis.Messages.{Block, Qc, genesis_qc, HVote, opt, hs_propose}
use gnosis.Config.{Committee, total_votes, quorum_threshold, sum_stakes, default_parameters}
use gnosis.Crypto.{Crypto, BatchIsSound, Signature}
use gnosis.Prelude.{
  ℕ, List, sum, ◌∙◌, ◌∷◌, [], arith, true, map, sym, ◌≡◌, nat_eqb, all, false, refl, some, ap, ◌&&◌,
}

abbrev pub toy : Crypto
toy = record {
  sha512 = λ bytes. sum bytes;
  signature_from_bytes = λ s. true;
  key_from_bytes = λ k. true;
  verify_strict = λ k d s. nat_eqb s.part1 k;
  batch = λ votes. all (λ v. nat_eqb v.1.part1 v.2) votes;
  sign = λ d. record { part1 = 1; part2 = d };
  tss_sign = λ d. some d;
  tss_verify = λ i share d. nat_eqb share d;
  combine_signatures = λ shares. some (0 ∷ []);
}

toy-batch :
    (d : ℕ) (votes : List (ℕ × Signature))
    → toy.batch (map (λ v. (d, v.1, v.0)) votes) ≡ all (λ v. toy.verify_strict v.0 d v.1) votes
toy-batch d [] = refl
toy-batch d (v ∷ votes) = ap (λ b. nat_eqb v.1.part1 v.0 && b) (toy-batch d votes)

pub toy-BatchIsSound : BatchIsSound toy
toy-BatchIsSound = record {
  accepts = λ d votes h. toy-batch d votes ∙ h;
  rejects = λ d votes h. sym (toy-batch d votes) ∙ h;
}

abbrev pub four : Committee
four = record {
  authorities =
      (1, record { name = 1; id = 0; stake = 1; address = 11; smvba_address = 21 })
      ∷ (2, record { name = 2; id = 1; stake = 1; address = 12; smvba_address = 22 })
      ∷ (3, record { name = 3; id = 2; stake = 1; address = 13; smvba_address = 23 })
      ∷ (4, record { name = 4; id = 3; stake = 1; address = 14; smvba_address = 24 })
      ∷ [];
  epoch = 0;
}

abbrev pub signed_by : ℕ → Signature
signed_by k = record { part1 = k; part2 = 0 }

-- A block on the genesis block by the leader of height 1.
abbrev pub first_block : Block
first_block = record {
  qc = genesis_qc;
  author = 2;
  height = 1;
  epoch = 0;
  payload = [];
  signature = signed_by 2;
  tag = opt;
  round = 0;
}

abbrev pub vote_by : ℕ → HVote
vote_by k = record {
  hash = 77;
  height = 1;
  round = 0;
  epoch = 0;
  proposer = 2;
  tag = opt;
  author = k;
  signature = signed_by k;
}

abbrev pub qc_by : List ℕ → Qc
qc_by authors = record {
  hash = 77;
  height = 1;
  epoch = 0;
  round = 0;
  tag = opt;
  proposer = 2;
  acceptor = 2;
  votes = map (λ k. (k, signed_by k)) authors;
}

abbrev pub env : Env
env = record { crypto = toy; payload = λ _. []; status = λ _. accept; chain_bound = 10 }

-- The node 1, on the optimistic path only.
abbrev pub node : Core
node = new_core 1 four default_parameters [] true false

pub four-Fits : Fits four
four-Fits = omega arith

abbrev pub proposals : List Event
proposals = core_message (hs_propose first_block) ∷ []

abbrev pub qc_123 : Qc
qc_123 = qc_by (1 ∷ 2 ∷ 3 ∷ [])

abbrev pub qc_234 : Qc
qc_234 = qc_by (2 ∷ 3 ∷ 4 ∷ [])

pub four_votes : total_votes four ≡ 4
unfolding total_votes sum_stakes
four_votes = refl

pub four_quorum : quorum_threshold four ≡ 3
unfolding quorum_threshold total_votes sum_stakes
four_quorum = refl

abbrev pub votes_123 : List HVote
votes_123 = vote_by 1 ∷ vote_by 2 ∷ vote_by 3 ∷ []
