-- ===== src/Messages/Checks.antt =====
-- The checks of the messages (`verify` in consensus/src/messages.rs).
use gnosis.Prelude.Words.{add32, u32_mod}
use gnosis.Prelude.Map.{add, mem}
use gnosis.Messages.Digests.{
  done_digest, block_digest, hvote_digest, spb_vote_digest, share_digest, pre_vote_digest,
  mvote_digest, halt_digest, qc_digest, aba_val_digest, prepare_digest,
}
use gnosis.Prelude.{
  List, [], ltb, leb, if◌then◌else◌, ◌∷◌, ℕ, Bool, length, not, nat_eqb, ◌&&◌, ◌||◌, ◌%◌, false,
  nat_eq, true,
}
use gnosis.Crypto.{Crypto, PublicKey, Signature, verify, verify_batch}
use gnosis.Config.{Committee, stake, quorum_threshold, random_coin_threshold, id}
use gnosis.Error.{
  Outcome, ok, err, ensure, ◌>>=◌, ◌>>◌, unknown_authority, qc_requires_quorum, spb_requires_quorum,
  invalid_threshold_signature, authority_reuse_in_qc, invalid_prepare_tag, invalid_fin_proof,
  invalid_prepare_pes_qc,
}
use gnosis.Messages.{
  Block, HVote, Qc, opt, pes, List, [], PrePare, SpbVote, SpbProof, SpbValue, RandomnessShare,
  MDoneAndShare, PreVoteTag, MPreVote, MVoteTag, MVote, MHalt, ℕ, Bool, not, nat_eqb, pre_yes,
  vote_yes, qc_eq, init_phase, fin_phase, genesis_qc, lock_phase, false, true, pre_no, vote_no,
}

-- The loop of QC::verify: no author twice, each with voting rights; the weight of all.
unfoldable pub qc_weight : Committee → List (PublicKey × Signature) → List PublicKey → ℕ → Outcome ℕ
qc_weight committee [] used weight = ok weight
qc_weight committee (v ∷ votes) used weight =
    let rest = qc_weight committee votes (add v.0 used) (add32 weight (stake committee v.0)) in
    do
      ensure (not (mem v.0 used)) (authority_reuse_in_qc v.0)
      ensure (ltb 0 (stake committee v.0)) (unknown_authority v.0)
      rest

-- The weighing loop of SPBProof::verify.
unfoldable pub shares_weight : Committee → List SpbVote → ℕ → Outcome ℕ
shares_weight committee [] weight = ok weight
shares_weight committee (s ∷ shares) weight =
    let rest = shares_weight committee shares (add32 weight (stake committee s.author)) in
    do ensure (ltb 0 (stake committee s.author)) (unknown_authority s.author); rest

module _ (crypto : Crypto) (committee : Committee) where
  unfoldable pub verify_qc : Qc → Outcome (Unit {0})
  verify_qc qc = do
    weight ← qc_weight committee qc.votes [] 0
    ensure (leb (quorum_threshold committee) weight) qc_requires_quorum
    verify_batch crypto (qc_digest crypto qc) qc.votes

  -- A QC that equals the genesis one is not checked.
  unfoldable pub verify_embedded_qc : Qc → Outcome (Unit {0})
  verify_embedded_qc qc = if not (qc_eq qc genesis_qc) then verify_qc qc else ok tt

  unfoldable pub verify_block : Block → Outcome (Unit {0})
  unfolding verify_embedded_qc
  verify_block b = do
    ensure (ltb 0 (stake committee b.author)) (unknown_authority b.author)
    verify crypto b.signature (block_digest crypto b) b.author
    verify_embedded_qc b.qc

  unfoldable pub verify_hvote : HVote → Outcome (Unit {0})
  verify_hvote v = do
    ensure (ltb 0 (stake committee v.author)) (unknown_authority v.author)
    verify crypto v.signature (hvote_digest crypto v) v.author

  unfoldable pub verify_prepare : PrePare → ℕ → Outcome (Unit {0})
  unfolding verify_embedded_qc
  verify_prepare p fallback_length = do
    ensure (nat_eqb p.val opt || nat_eqb p.val pes) (invalid_prepare_tag p.val)
    verify crypto p.signature (prepare_digest crypto p) p.author
    verify_embedded_qc p.qc
    if nat_eqb p.qc.tag pes && not (nat_eqb p.qc.round fallback_length)
        then err (invalid_prepare_pes_qc p.qc.round)
        else ok tt

  unfoldable pub verify_spb_vote : SpbVote → Outcome (Unit {0})
  verify_spb_vote v = do
    ensure (ltb 0 (stake committee v.author)) (unknown_authority v.author)
    verify crypto v.signature (spb_vote_digest crypto v) v.author

  unfoldable pub verify_shares : List SpbVote → Outcome (Unit {0})
  verify_shares [] = ok tt
  verify_shares (s ∷ shares) = let rest = verify_shares shares in do verify_spb_vote s; rest

  unfoldable pub verify_proof : SpbProof → Outcome (Unit {0})
  verify_proof p =
      let quorum : Outcome (Unit {0}) = do
        weight ← shares_weight committee p.shares 0
        ensure (leb (quorum_threshold committee) weight) spb_requires_quorum
        verify_shares p.shares
      in if leb p.phase init_phase then ok tt else if leb lock_phase p.phase then quorum else ok tt

  -- Whether the value carries as many signatures as its input of the agreement asks for.
  unfoldable pub enough_signatures : SpbValue → Bool
  enough_signatures v =
      let weight = length v.signatures % u32_mod in
      if nat_eqb v.val opt && ltb weight (random_coin_threshold committee)
      then false
      else if nat_eqb v.val pes && ltb weight (quorum_threshold committee)
      then false
      else true

  unfoldable pub verify_value : SpbValue → SpbProof → ℕ → Outcome (Unit {0})
  unfolding enough_signatures
  verify_value v proof fallback_length = do
    if enough_signatures v && not (nat_eqb v.block.height 1)
        then verify_batch crypto (aba_val_digest crypto v.val) v.signatures
        else if not (nat_eqb v.block.height 1)
        then err (invalid_prepare_tag v.val)
        else ok tt
    ensure (nat_eqb v.block.qc.round fallback_length) (invalid_prepare_pes_qc v.block.qc.round)
    verify_block v.block
    verify_proof proof

  unfoldable pub verify_share : RandomnessShare → Outcome (Unit {0})
  verify_share s = do
    ensure (ltb 0 (stake committee s.author)) (unknown_authority s.author)
    i ← id committee s.author
    ensure (crypto.tss_verify i s.signature_share (share_digest crypto s.round s.height s.epoch))
        (invalid_threshold_signature s.author)

  unfoldable pub verify_done : MDoneAndShare → Outcome (Unit {0})
  verify_done d = do verify crypto d.signature (done_digest crypto d) d.author; verify_share d.share

  unfoldable pub verify_pre_vote_tag : PreVoteTag → ℕ → Outcome (Unit {0})
  verify_pre_vote_tag (pre_yes v p) fallback_length = verify_value v p fallback_length
  verify_pre_vote_tag pre_no fallback_length = ok tt

  unfoldable pub verify_pre_vote : MPreVote → ℕ → Outcome (Unit {0})
  unfolding verify_pre_vote_tag
  verify_pre_vote v fallback_length = do
    ensure (ltb 0 (stake committee v.author)) (unknown_authority v.author)
    verify crypto v.signature (pre_vote_digest crypto v) v.author
    verify_pre_vote_tag v.tag fallback_length

  unfoldable pub verify_vote_tag : MVoteTag → ℕ → Outcome (Unit {0})
  verify_vote_tag (vote_yes value proof vote) fallback_length = do
    verify_value value proof fallback_length
    verify_spb_vote vote
  verify_vote_tag vote_no fallback_length = ok tt

  unfoldable pub verify_mvote : MVote → ℕ → Outcome (Unit {0})
  unfolding verify_vote_tag
  verify_mvote v fallback_length = do
    ensure (ltb 0 (stake committee v.author)) (unknown_authority v.author)
    verify crypto v.signature (mvote_digest crypto v) v.author
    verify_vote_tag v.tag fallback_length

  unfoldable pub verify_halt : MHalt → ℕ → Outcome (Unit {0})
  verify_halt h fallback_length = do
    ensure (ltb 0 (stake committee h.author)) (unknown_authority h.author)
    verify crypto h.signature (halt_digest crypto h) h.author
    ensure (nat_eqb h.proof.phase fin_phase) invalid_fin_proof
    verify_value h.value h.proof fallback_length
