-- ===== src/Tests/PushPullRuns.antt =====
-- Elements that numbers are pushed into and pulled from: src/pushpull.
use mathlib.Core.List.{Perm}
use lattice_flow.Base.{◌≡◌, ℕ, ◌%◌, List, [], ◌∷◌, nat_eq, pop_back, refl}
use lattice_flow.PushPull.Element.{pull_all, push_all, write_down}
use lattice_flow.PushPull.Join.{
  Input, left, right, push_input, push_left, push_right, at_key, push_back, pair_left, pair_right,
}
use lattice_flow.PushPull.Join.Pull.{pull, refill, give_back}
use lattice_flow.PushPull.Join.Given.{Gives, pairs, left_list, right_list, new_join, pull_all-Gives}
use lattice_flow.PushPull.Join.Matches.{matches, push_all_equijoin, empty}
use lattice_flow.Std.Assoc.{find, assign}

-- The remainder by ten, as a key.
abbrev digit : ℕ → ℕ
digit n = n % 10

abbrev arrivals : List (Input ℕ)
arrivals = left 12 ∷ right 32 ∷ right 41 ∷ left 22 ∷ []

push_all_equijoin_example :
    Perm
      (push_all (push_input digit digit write_down) arrivals (empty digit digit)).neighbour
      (matches digit digit (12 ∷ 22 ∷ []) (32 ∷ 41 ∷ []))
unfolding push_all
push_all_equijoin_example = push_all_equijoin digit digit arrivals

abbrev lefts : List ℕ
lefts = 12 ∷ 21 ∷ []

abbrev rights : List ℕ
rights = 32 ∷ 42 ∷ 51 ∷ []

pull_all-Gives_example :
    Gives digit digit lefts rights
      (pairs
        (pull_all (pull digit digit left_list right_list) 6 (new_join digit digit lefts rights)).0)
      (pull_all (pull digit digit left_list right_list) 6 (new_join digit digit lefts rights)).1
pull_all-Gives_example = pull_all-Gives digit digit lefts rights 6

-- Two of the three pairs that match, as the last right value is never read.
pulled_pairs :
    pairs (pull_all (pull digit digit left_list right_list) 6 (new_join digit digit lefts rights)).0
    ≡ (12, 32) ∷ (12, 42) ∷ []
unfolding pull_all pull refill give_back pop_back push_left push_right at_key push_back pair_left
    pair_right find assign
pulled_pairs = refl
