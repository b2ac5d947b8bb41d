-- ===== src/Plan/Layout.antt =====
-- include/yorch/plan/layout.hpp: the tables of a plan, computed from the levels of its nodes. An
-- array of N entries is a function on indices; a loop is the table after each of its rounds.
use yorch.Base.{
  ℕ, zero, suc, ◌+◌, ◌-◌, ◌%◌, ◌^◌, Option, none, some, List, [], ◌∷◌, ◌==◌, if◌then◌else◌, update,
}

-- `make_level_array`: the levels of the nodes in insertion order.
unfoldable pub make_level_array : List ℕ → ℕ → ℕ
make_level_array [] i = 0
make_level_array (level ∷ levels) zero = level
make_level_array (level ∷ levels) (suc i) = make_level_array levels i

-- `make_slot_index_array` after `k` rounds.
unfoldable pub make_slot_index_array : ℕ → ℕ → ℕ
make_slot_index_array zero = λ _. 0
make_slot_index_array (suc k) = update (make_slot_index_array k) k k

-- `levels[node] - 1` on `std::size_t`.
abbrev pub size_max : ℕ
size_max = 2 ^ 64

abbrev pub target_level : ℕ → ℕ
target_level level = (level + size_max - 1) % size_max

-- The inner loop of `make_parent_index_array`: the nearest entry below `cursor` at the level.
unfoldable pub scan_back : (ℕ → ℕ) → ℕ → ℕ → Option ℕ
scan_back levels target zero = none
scan_back levels target (suc candidate) =
    if levels candidate == target then some candidate else scan_back levels target candidate

abbrev pub record_parent : (ℕ → ℕ) → ℕ → Option ℕ → ℕ → ℕ
record_parent parents node none = parents
record_parent parents node (some candidate) = update parents node candidate

-- The table after the rounds for nodes 1 to `k`; it starts as `N` in every entry.
unfoldable pub parent_rounds : ℕ → (ℕ → ℕ) → ℕ → ℕ → ℕ
parent_rounds n levels zero = λ _. n
parent_rounds n levels (suc k) =
    record_parent (parent_rounds n levels k) (suc k)
      (scan_back levels (target_level (levels (suc k))) (suc k))

unfoldable pub make_parent_index_array : ℕ → (ℕ → ℕ) → ℕ → ℕ
unfolding parent_rounds
make_parent_index_array n levels = parent_rounds n levels (n - 1)

-- The first loop of `make_child_layout`: `++layout.counts[parents[node]]` for nodes 1 to `k`.
unfoldable pub count_rounds : (ℕ → ℕ) → ℕ → ℕ → ℕ
count_rounds parents zero = λ _. 0
count_rounds parents (suc k) =
    let counts = count_rounds parents k in
    update counts (parents (suc k)) (counts (parents (suc k)) + 1)

-- The second loop: the running offset, and the offsets that it leaves behind.
pub record OffsetState : Type 0 where
  pub offset : ℕ
  pub offsets : ℕ → ℕ

unfoldable pub offset_rounds : (ℕ → ℕ) → ℕ → OffsetState
offset_rounds counts zero = record { offset = 0; offsets = λ _. 0 }
offset_rounds counts (suc node) =
    let before = offset_rounds counts node in
    record {
      offset = before.offset + counts node;
      offsets = update before.offsets node before.offset;
    }

-- The third loop: `layout.indices[next_offsets[parent]++] = node` for nodes 1 to `k`.
pub record ScatterState : Type 0 where
  pub next_offsets : ℕ → ℕ
  pub indices : ℕ → ℕ

unfoldable pub scatter_rounds : (ℕ → ℕ) → (ℕ → ℕ) → ℕ → ScatterState
scatter_rounds parents offsets zero = record { next_offsets = offsets; indices = λ _. 0 }
scatter_rounds parents offsets (suc k) =
    let before = scatter_rounds parents offsets k in
    let parent = parents (suc k) in
    let position = before.next_offsets parent in
    record {
      next_offsets = update before.next_offsets parent (position + 1);
      indices = update before.indices position (suc k);
    }

pub record ChildLayout : Type 0 where
  pub counts : ℕ → ℕ
  pub offsets : ℕ → ℕ
  pub indices : ℕ → ℕ

unfoldable pub make_child_layout : ℕ → (ℕ → ℕ) → ChildLayout
unfolding count_rounds offset_rounds scatter_rounds
make_child_layout n parents =
    let counts = count_rounds parents (n - 1) in
    let offsets = (offset_rounds counts n).offsets in
    record {
      counts = counts;
      offsets = offsets;
      indices = (scatter_rounds parents offsets (n - 1)).indices;
    }
