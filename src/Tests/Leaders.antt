-- ===== src/Tests/Leaders.antt =====
-- An example about the leaders of a height: the second of two at height 3.
use gnosis.Prelude.Words.{u64_mod}
use gnosis.Error.{ok}
use gnosis.Prelude.{
  sort, ◌≡◌, insert_sorted, true, ◌≤◌, ◌∷◌, some, length, [], refl, arith, ◌+◌, ◌*◌,
}
use gnosis.Prelude.Map.{mem, keys}
use gnosis.Leader
use gnosis.Tests.Toy.{four}
use gnosis.Leader.Elected.{distinct, get_leaders-index_as_leader}

four_distinct : distinct (keys four.authorities) ≡ true
unfolding distinct mem
four_distinct = refl

two_fit : 2 ≤ length (sort (keys four.authorities))
unfolding sort insert_sorted
two_fit = omega arith

no_wrap : 2 + 2 * length (sort (keys four.authorities)) ≤ u64_mod
unfolding sort insert_sorted
no_wrap = omega arith

leaders_of_3 : Leader.get_leaders (Leader.new four 2) 3 ≡ ok (4 ∷ 1 ∷ [])
unfolding Leader.get_leaders Leader.new sort insert_sorted
leaders_of_3 = refl

get_leaders-index_as_leader_example : Leader.index_as_leader (Leader.new four 2) 1 3 ≡ ok (some 1)
get_leaders-index_as_leader_example =
    get_leaders-index_as_leader four 2 1 3 1 (4 ∷ 1 ∷ []) four_distinct two_fit no_wrap leaders_of_3
      refl (omega arith)
