-- ===== src/Plan/Parents.antt =====
-- What `make_parent_index_array` (include/yorch/plan/layout.hpp) finds.
use yorch.Base.{
  ℕ, zero, suc, ◌+◌, ◌-◌, ◌≤◌, ◌<◌, ◌≡◌, ◌≢◌, ◌∙◌, refl, inl, inr, Option, none, some, ◌==◌,
  if◌then◌else◌, ltb, Bool-cases, ==_iff, arith,
}
use yorch.Plan.Layout.{size_max, target_level, scan_back, parent_rounds, make_parent_index_array}

-- The level sequences that `append_level_valid_v` admits, on the first `n` entries.
pub record IsLevelSequence (n : ℕ) (levels : ℕ → ℕ) : Type 0 where
  pub root_level : levels 0 ≡ 0
  pub node_level : (i : ℕ) → suc i < n → (1 ≤ levels (suc i)) × (levels (suc i) ≤ levels i + 1)

-- The scan finds the last entry at the level, if one is there.
pub record IsNearest (levels : ℕ → ℕ) (target cursor found : ℕ) : Type 0 where
  pub below : found < cursor
  pub at_target : levels found ≡ target
  pub nearest : (j : ℕ) → found < j → j < cursor → levels j ≢ target

scan_back-IsNearest :
    (levels : ℕ → ℕ) (target cursor found : ℕ)
    → scan_back levels target cursor ≡ some found
    → IsNearest levels target cursor found
unfolding scan_back
scan_back-IsNearest levels target zero found e = cc
scan_back-IsNearest levels target (suc c) found e = elim (Bool-cases (levels c == target)) [
  | inl hit ↦
      let found_here : c ≡ found = ground arith in
      record {
        below = omega arith;
        at_target = ground (arith, ==_iff (levels c) target);
        nearest = λ j h k _. omega arith;
      }
  | inr miss ↦
      let earlier = scan_back-IsNearest levels target c found (rw miss at e) in
      record {
        below = omega (arith, earlier.below);
        at_target = earlier.at_target;
        nearest = λ j h k here. elim (Bool-cases (j == c)) [
          | inl last ↦ ground (arith, ==_iff j c, ==_iff (levels c) target)
          | inr before ↦ earlier.nearest j h (ground arith) here
        ];
      }
]

module _ (n : ℕ) (levels : ℕ → ℕ) (valid : IsLevelSequence n levels) where
  -- Going back from a node every level down to 0 is met.
  scan_back_finds :
      (target c : ℕ)
      → c < n
      → target ≤ levels c
      → (found : ℕ) × (scan_back levels target (suc c) ≡ some found)
  unfolding scan_back
  scan_back_finds target zero h t = (0, ground (arith, valid.root_level))
  scan_back_finds target (suc c) h t = elim (Bool-cases (levels (suc c) == target)) [
    | inl hit ↦ (suc c, rw hit)
    | inr miss ↦
        rw miss (scan_back_finds target c (omega arith) (ground (arith, valid.node_level c)))
  ]

  level-le : (i : ℕ) → i < n → levels i ≤ i
  level-le zero h = omega (arith, valid.root_level)
  level-le (suc i) h = omega (arith, valid.node_level i h, level-le i (omega arith))

  -- Between a node and its parent every entry is at least as deep as the node.
  between :
      (node found d j : ℕ)
      → node < n
      → IsNearest levels (levels node - 1) node found
      → 1 ≤ levels node
      → found < j
      → j + d ≡ node
      → levels node ≤ levels j
  between node found zero j h near pos above e =
      let e' : j ≡ node = omega arith in rw e' (omega arith)
  between node found (suc d) j h near pos above e =
      let deeper = between node found d (suc j) h near pos (omega arith) (omega arith) in
      omega (arith, deeper, valid.node_level j (omega arith), near.nearest j above (omega arith))

abbrev parent_of : ℕ → Option ℕ → ℕ
parent_of n none = n
parent_of n (some p) = p

-- `p` is the direct parent of `node`: the last earlier entry one level up, and no entry between
-- them lies higher than the node.
pub record IsParent (levels : ℕ → ℕ) (node p : ℕ) : Type 0 where
  pub before : p < node
  pub one_up : levels p + 1 ≡ levels node
  pub enclosed : (j : ℕ) → p < j → j < node → levels node ≤ levels j

parent_rounds_at :
    (n k : ℕ) (levels : ℕ → ℕ) (j : ℕ)
    → parent_rounds n levels k (suc j) ≡ (
        if ltb j k
        then parent_of n (scan_back levels (target_level (levels (suc j))) (suc j))
        else n)
unfolding parent_rounds
parent_rounds_at n zero levels j = ground arith
parent_rounds_at n (suc k) levels j = ground (arith, parent_rounds_at n k levels j)

-- The entry of the root stays the sentinel `N`, whatever the levels are.
pub parent_root : (n : ℕ) (levels : ℕ → ℕ) → make_parent_index_array n levels 0 ≡ n
unfolding make_parent_index_array
parent_root n levels = rounds (n - 1)
  where
    rounds : (k : ℕ) → parent_rounds n levels k 0 ≡ n
    rounds zero = refl
    rounds (suc k) = ground (arith, rounds k)

target_level_lem : (level : ℕ) → 1 ≤ level → level ≤ size_max → target_level level ≡ level - 1
target_level_lem level pos small = omega arith

module _ (n : ℕ) (levels : ℕ → ℕ) (valid : IsLevelSequence n levels) (small : n ≤ size_max) where
  nearest-IsParent :
      (j found : ℕ)
      → suc j < n
      → IsNearest levels (levels (suc j) - 1) (suc j) found
      → IsParent levels (suc j) found
  nearest-IsParent j found h near =
      let pos = (valid.node_level j h).0 in
      record {
        before = near.below;
        one_up = omega (arith, near.at_target);
        enclosed = λ i above below.
            between n levels valid (suc j) found (suc j - i) i h near pos above (omega arith);
      }

  -- For levels as the builder admits them, of at most 2^64 nodes, the table gives each node behind the
  -- root a parent: an earlier node one level up, with nothing between them above the node's level.
  pub make_parent_index_array-IsParent :
      (node : ℕ)
      → 0 < node
      → node < n
      → IsParent levels node (make_parent_index_array n levels node)
  unfolding make_parent_index_array
  make_parent_index_array-IsParent zero pos h = absurd (omega arith)
  make_parent_index_array-IsParent (suc j) pos h =
      let (one, step) = valid.node_level j h in
      let (found, e) =
        scan_back_finds n levels valid (levels (suc j) - 1) j (omega arith) (omega arith) in
      let target =
        target_level_lem (levels (suc j)) one (omega (arith, level-le n levels valid (suc j) h)) in
      let made : parent_rounds n levels (n - 1) (suc j) ≡ found =
        parent_rounds_at n (n - 1) levels j ∙ ground (arith, target, e) in
      rw made (nearest-IsParent j found h (scan_back-IsNearest levels _ (suc j) found e))
