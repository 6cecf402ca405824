-- ===== src/Core/Safety/Stale.antt =====
-- Messages that come too late: the filters of consensus/src/core.rs (smvba_msg_filter,
-- fallback_message_filter and the tests of handle_par_prepare and process_par_out) in the event loop.
use gnosis.Core.Prepare.{handle_par_prepare}
use gnosis.Core.Vote.{handle_smvba_prevote, handle_smvba_mvote}
use gnosis.Core.Coin.{handle_smvba_done_with_share, handle_smvba_done}
use gnosis.Core.Spb.{handle_spb_proposal, handle_spb_vote, handle_spb_finish}
use gnosis.Core.Fallback.{handle_fallback_propose, handle_fallback_vote, process_fallback_propose}
use gnosis.Prelude.Words.{add64}
use gnosis.Core.Loop.{on_smvba_message, goes_on}
use gnosis.Core.Output.{
  smvba_msg_filter, fallback_message_filter, handle_smvba_halt, process_par_out,
}
use gnosis.Messages.{
  ConsensusMessage, fb_propose, fb_vote, fb_loop_back, spb_propose, spb_vote, spb_finish,
  spb_done_and_share, smvba_pre_vote, smvba_vote, smvba_halt, par_prepare, hs_vote, hs_propose,
  hs_loop_back, sync_request, sync_reply, par_loop_back,
}
use gnosis.Prelude.{
  ℕ, Option, ◌<◌, ◌≡◌, nat_eqb, ◌⊎◌, false, ◌&&◌, some, arith, ltb, ◌≤◌, none, true, refl, ◌||◌,
  leb,
}
use gnosis.Core.State.{Core, Env, ◌>>=◌, get, lift, pure}
use gnosis.Core.Calls.{Back}

-- The epoch and the height that a message of the agreement or the fallback path is about.
unfoldable pub stamp : ConsensusMessage → Option (ℕ × ℕ)
stamp (fb_propose b) = some (b.epoch, b.height)
stamp (fb_vote v) = some (v.epoch, v.height)
stamp (fb_loop_back b) = some (b.epoch, b.height)
stamp (spb_propose v p) = some (v.block.epoch, p.height)
stamp (spb_vote v) = some (v.epoch, v.height)
stamp (spb_finish v p) = some (v.block.epoch, p.height)
stamp (spb_done_and_share d) = some (d.epoch, d.height)
stamp (smvba_pre_vote v) = some (v.epoch, v.height)
stamp (smvba_vote v) = some (v.epoch, v.height)
stamp (smvba_halt h) = some (h.epoch, h.height)
stamp (par_prepare p) = some (p.epoch, p.height)
stamp (par_loop_back b) = some (b.epoch, b.height)
stamp _ = none

-- Of an earlier epoch, or two heights behind.
abbrev pub IsStale : Core → ℕ → ℕ → Type 0
IsStale s epoch height = (epoch < s.epoch) ⊎ (add64 height 2 ≤ s.height)

smvba-stale : (s : Core) (e h : ℕ) → IsStale s e h → smvba_msg_filter s e h ≡ false
unfolding smvba_msg_filter
smvba-stale s e h stale = ground arith

fallback-stale : (s : Core) (e h : ℕ) → IsStale s e h → fallback_message_filter s e h ≡ false
unfolding fallback_message_filter
fallback-stale s e h stale = ground arith

prepare-stale :
    (s : Core) (e h : ℕ) → IsStale s e h → nat_eqb e s.epoch && ltb s.height (add64 h 2) ≡ false
prepare-stale s e h stale = ground arith

output-stale :
    (s : Core) (e h : ℕ) → IsStale s e h → ltb e s.epoch || leb (add64 h 2) s.height ≡ true
output-stale s e h stale = ground arith

-- The stamp of a stale message; the messages without a stamp are not stale.
abbrev pub StaleAt : Core → Option (ℕ × ℕ) → Type 0
StaleAt s none = ⊥
StaleAt s (some (e, h)) = IsStale s e h

-- A message of the agreement or the fallback path that comes too late, of an earlier epoch or two
-- heights behind, leaves the node as it was, and the loop goes on.
pub stale_unmoved :
    (env : Env) (rec : Back) (s : Core) (m : ConsensusMessage)
    → StaleAt s (stamp m)
    → ((on_smvba_message env rec m s).1 ≡ s) × (goes_on env (on_smvba_message env rec m s).0 ≡ true)
unfolding stamp on_smvba_message goes_on ◌>>=◌ get pure lift handle_fallback_propose
    handle_fallback_vote process_fallback_propose handle_spb_proposal handle_spb_vote
    handle_spb_finish handle_smvba_done_with_share handle_smvba_done handle_smvba_prevote
    handle_smvba_mvote handle_smvba_halt handle_par_prepare process_par_out
stale_unmoved env rec s (fb_propose b) h = rw (fallback-stale s b.epoch b.height h) (refl, refl)
stale_unmoved env rec s (fb_vote v) h = rw (fallback-stale s v.epoch v.height h) (refl, refl)
stale_unmoved env rec s (fb_loop_back b) h = rw (fallback-stale s b.epoch b.height h) (refl, refl)
stale_unmoved env rec s (spb_propose v p) h =
    rw (smvba-stale s v.block.epoch p.height h) (refl, refl)
stale_unmoved env rec s (spb_vote v) h = rw (smvba-stale s v.epoch v.height h) (refl, refl)
stale_unmoved env rec s (spb_finish v p) h =
    rw (smvba-stale s v.block.epoch p.height h) (refl, refl)
stale_unmoved env rec s (spb_done_and_share d) h =
    rw (smvba-stale s d.epoch d.height h) (refl, refl)
stale_unmoved env rec s (smvba_pre_vote v) h = rw (smvba-stale s v.epoch v.height h) (refl, refl)
stale_unmoved env rec s (smvba_vote v) h = rw (smvba-stale s v.epoch v.height h) (refl, refl)
stale_unmoved env rec s (smvba_halt m) h = rw (smvba-stale s m.epoch m.height h) (refl, refl)
stale_unmoved env rec s (par_prepare p) h = rw (prepare-stale s p.epoch p.height h) (refl, refl)
stale_unmoved env rec s (hs_propose b) h = absurd h
stale_unmoved env rec s (hs_vote v) h = absurd h
stale_unmoved env rec s (hs_loop_back b) h = absurd h
stale_unmoved env rec s (sync_request d k) h = absurd h
stale_unmoved env rec s (sync_reply b) h = absurd h
stale_unmoved env rec s (par_loop_back b) h = rw (output-stale s b.epoch b.height h) (refl, refl)
