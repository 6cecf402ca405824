-- ===== src/Tests/Node.antt =====
-- Examples about a node and its leaders.
use gnosis.Prelude.Words.{u64_mod}
use gnosis.Core.Safety.Walk.{Walked, commit-Walked}
use gnosis.Core.Safety.Proposed.{Judged, handle_opt_proposal-Judged}
use gnosis.Core.Opt.{handle_opt_proposal}
use gnosis.Config.Stake.{Fits}
use gnosis.Core.Safety.Heights.{process_qc-heights}
use gnosis.Leader.Window.{index_as_leader-get_leaders}
use gnosis.Core.Safety.Votes.{Below, votes_in, run-no_equivocation}
use gnosis.Error.{ok}
use gnosis.Core.Preserve.{view}
use gnosis.Core.Safety.Chain.{Ranked}
use gnosis.Tests.Toy.{
  four-Fits, toy-BatchIsSound, node, env, first_block, four, proposals, vote_by, signed_by, qc_123,
}
use gnosis.Core.Round.{new_core, update_smvba_state, update_prepare_state, process_qc}
use gnosis.Core.Loop.{on_smvba_message, run, call, goes_on}
use gnosis.Core.Safety.Stale.{stamp, StaleAt, stale_unmoved}
use gnosis.Core.Chain.{commit}
use gnosis.Core.State.{Core, FilterInput}
use gnosis.Prelude.Map.{Map, lookup, insert, keys}
use gnosis.Messages.{Block, genesis_qc, fb_vote, opt, HVote}
use gnosis.Core.Safety.Commits.{Delivered, run-commits_rise}
use gnosis.Prelude.{
  List, ℕ, ◌∷◌, arith, ◌≡◌, sort, ◌≤◌, [], insert_sorted, ◌<◌, ◌++◌, inr, some, get_elem?, true,
  ◌⊎◌, refl, nat_eq, ◌+◌, ◌*◌, length,
}
use gnosis.Leader

run-no_equivocation_example :
    (sent : List FilterInput) × ((run env 5 proposals node).network_filter
      ≡ sent ++ node.network_filter)
    × Below (run env 5 proposals node).last_voted_height (votes_in sent)
    × ((i j : ℕ) (v w : HVote)
        → get_elem? (votes_in sent) i ≡ some v
        → get_elem? (votes_in sent) j ≡ some w
        → v.height ≡ w.height
        → v ≡ w)
run-no_equivocation_example = run-no_equivocation env 5 proposals node

run-commits_rise_example :
    Delivered node.commit_channel node.last_committed_height (view (run env 5 proposals node))
run-commits_rise_example = run-commits_rise env 5 proposals node

-- A block on the first block, and a store with both, whose digests are 5 and 6.
abbrev second_block : Block
second_block = record {
  qc = record genesis_qc { hash = 5; height = 1 };
  author = 3;
  height = 2;
  epoch = 0;
  payload = 9 ∷ [];
  signature = signed_by 3;
  tag = opt;
  round = 0;
}

abbrev two_blocks : Map ℕ Block
two_blocks = (5, first_block) ∷ (6, second_block) ∷ []

two_blocks-Ranked : Ranked (λ b. b.qc.hash) two_blocks
unfolding lookup
two_blocks-Ranked b p inner stored = ground arith

abbrev stocked : Core
stocked = record node { store = two_blocks }

commit-Walked_example : Walked second_block stocked (commit env second_block stocked)
commit-Walked_example =
    commit-Walked env (λ b. b.qc.hash) second_block stocked two_blocks-Ranked (omega arith)

abbrev late : Core
late = record node { height = 5 }

late_message-StaleAt : StaleAt late (stamp (fb_vote (vote_by 2)))
unfolding stamp
late_message-StaleAt = inr (omega arith)

stale_unmoved_example :
    ((on_smvba_message env (call env 5) (fb_vote (vote_by 2)) late).1 ≡ late)
    × (goes_on env (on_smvba_message env (call env 5) (fb_vote (vote_by 2)) late).0 ≡ true)
stale_unmoved_example =
    stale_unmoved env (call env 5) late (fb_vote (vote_by 2)) late_message-StaleAt

-- At height 3 the leaders are the fourth and the first authority.
first_is_second_leader : Leader.index_as_leader (Leader.new four 2) 1 3 ≡ ok (some 1)
unfolding Leader.index_as_leader Leader.new Leader.get_leader_idx Leader.places lookup insert sort
    insert_sorted
first_is_second_leader = refl

small_window : 2 + 2 * length (sort (keys four.authorities)) ≤ u64_mod
unfolding sort insert_sorted
small_window = omega arith

index_as_leader-get_leaders_example :
    (leaders : List ℕ) × (Leader.get_leaders (Leader.new four 2) 3 ≡ ok leaders)
    × (get_elem? leaders 1 ≡ some 1)
    × (1 < 2)
index_as_leader-get_leaders_example =
    index_as_leader-get_leaders four 2 1 3 1 small_window first_is_second_leader

node-low : node.high_qc.height < node.height
unfolding new_core update_smvba_state update_prepare_state
node-low = omega arith

process_qc-heights_example :
    (node.height ≤ (process_qc qc_123 node).height)
    × (qc_123.height < (process_qc qc_123 node).height)
    × ((process_qc qc_123 node).high_qc.height < (process_qc qc_123 node).height)
    × (qc_123.height ≤ (process_qc qc_123 node).high_qc.height)
    × (node.high_qc.height ≤ (process_qc qc_123 node).high_qc.height)
    × (((process_qc qc_123 node).high_qc ≡ qc_123)
        ⊎ ((process_qc qc_123 node).high_qc ≡ node.high_qc))
process_qc-heights_example = process_qc-heights qc_123 node (omega arith) node-low

node-Fits : Fits node.committee
unfolding new_core update_smvba_state update_prepare_state
node-Fits = four-Fits

-- The first block, as one of a later epoch, with no change of its signature.
abbrev later_block : Block
later_block = record first_block { epoch = 3 }

handle_opt_proposal-Judged_example :
    Judged env node later_block (handle_opt_proposal env (call env 5) later_block node)
handle_opt_proposal-Judged_example =
    handle_opt_proposal-Judged env (call env 5) later_block node toy-BatchIsSound node-Fits
