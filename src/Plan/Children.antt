-- ===== src/Plan/Children.antt =====
-- What `make_child_layout` (include/yorch/plan/layout.hpp) computes: a counting sort of the nodes
-- by their parents.
use yorch.Base.{
  ℕ, zero, suc, ◌+◌, ◌-◌, ◌≤◌, ◌<◌, ◌≡◌, ◌≢◌, refl, inl, inr, some, List, [], ◌∷◌, ◌++◌, ◌==◌, ltb,
  if◌then◌else◌, Bool-cases, arith, length, get_elem?, length-append, get_elem?-append_left,
  get_elem?-append_last,
}
use yorch.Plan.Layout.{
  count_rounds, offset_rounds, ScatterState, scatter_rounds, ChildLayout, make_child_layout,
}

-- The nodes from 1 to `k` whose parent is `p`, in order.
unfoldable pub children : (ℕ → ℕ) → ℕ → ℕ → List ℕ
children parents p zero = []
children parents p (suc k) =
    children parents p k ++ (if parents (suc k) == p then suc k ∷ [] else [])

-- The count of a node is the number of its children.
count-children :
    (parents : ℕ → ℕ) (p k : ℕ) → count_rounds parents k p ≡ length (children parents p k)
unfolding count_rounds children
count-children parents p zero = refl
count-children parents p (suc k) = ground (
  arith,
  count-children parents p k,
  length-append (children parents p k) (suc k ∷ []),
  length-append {0} {A = ℕ} (children parents p k) [],
)

count_mono :
    (parents : ℕ → ℕ) (p d k : ℕ) → count_rounds parents k p ≤ count_rounds parents (k + d) p
count_mono parents p zero k = let e : k + 0 ≡ k = omega arith in rw e (omega arith)
count_mono parents p (suc d) k =
    let e : k + suc d ≡ suc k + d = omega arith in
    let one : count_rounds parents k p ≤ count_rounds parents (suc k) p =
      unfold count_rounds in ground arith in
    rw e (omega (arith, one, count_mono parents p d (suc k)))

module _ (counts : ℕ → ℕ) where
  abbrev pub off : ℕ → ℕ
  off p = (offset_rounds counts p).offset

  -- After the loop each node's entry is the running offset at its round.
  offsets_at : (k p : ℕ) → p < k → (offset_rounds counts k).offsets p ≡ off p
  unfolding offset_rounds
  offsets_at zero p h = absurd (omega arith)
  offsets_at (suc k) p h = ground (arith, offsets_at k p)

  -- The child ranges of two nodes do not overlap.
  off_step : (p : ℕ) → off (suc p) ≡ off p + counts p
  unfolding offset_rounds
  off_step p = refl

  off_mono : (p d : ℕ) → off p + counts p ≤ off (suc p + d)
  off_mono p zero = let e : suc p + 0 ≡ suc p = omega arith in rw e (omega (arith, off_step p))
  off_mono p (suc d) =
      let e : suc p + suc d ≡ suc (suc p + d) = omega arith in
      rw e (omega (arith, off_step (suc p + d), off_mono p d))

  pub off_apart : (p q : ℕ) → p < q → off p + counts p ≤ off q
  off_apart p q h =
      let e : suc p + (q - suc p) ≡ q = omega arith in rw e at (off_mono p (q - suc p))

count_zero : (parents : ℕ → ℕ) (p : ℕ) → count_rounds parents 0 p ≡ 0
unfolding count_rounds
count_zero parents p = refl

pub count_step_self :
    (parents : ℕ → ℕ) (k : ℕ)
    → count_rounds parents (suc k) (parents (suc k)) ≡ count_rounds parents k (parents (suc k)) + 1
unfolding count_rounds
count_step_self parents k = ground arith

count_step_other :
    (parents : ℕ → ℕ) (k p : ℕ)
    → p ≢ parents (suc k)
    → count_rounds parents (suc k) p ≡ count_rounds parents k p
unfolding count_rounds
count_step_other parents k p h = ground arith

pub count_le :
    (parents : ℕ → ℕ) (p k m : ℕ) → k ≤ m → count_rounds parents k p ≤ count_rounds parents m p
count_le parents p k m h =
    let e : k + (m - k) ≡ m = omega arith in rw e at (count_mono parents p (m - k) k)

module _ (n : ℕ) (parents : ℕ → ℕ)
    (in_range : (node : ℕ) → 0 < node → node < n → parents node < n) where
  abbrev pub counts : ℕ → ℕ
  counts = count_rounds parents (n - 1)

  abbrev pub offsets : ℕ → ℕ
  offsets = (offset_rounds counts n).offsets

  abbrev scatter : ℕ → ScatterState
  scatter = scatter_rounds parents offsets

  pub next_at :
      (k p : ℕ) → p < n → (scatter k).next_offsets p ≡ off counts p + count_rounds parents k p
  unfolding scatter_rounds
  next_at zero p h = unfold count_rounds in omega (arith, offsets_at counts n p h)
  next_at (suc k) p h = elim (Bool-cases (parents (suc k) == p)) [
    | inl hit ↦ ground (arith, next_at k p h, count_step_self parents k)
    | inr miss ↦ ground (arith, next_at k p h, count_step_other parents k p)
  ]

  -- The entry written in a round lies in no other node's filled range.
  position_apart :
      (k p j : ℕ)
      → suc k < n
      → p ≢ parents (suc k)
      → p < n
      → j < count_rounds parents k p
      → off counts (parents (suc k)) + count_rounds parents k (parents (suc k)) ≢ off counts p + j
  position_apart k p j h ne pn hj clash =
      let q = parents (suc k) in
      let bound_p = count_le parents p k (n - 1) (omega arith) in
      let bound_q = count_le parents q (suc k) (n - 1) (omega arith) in
      let mine = count_step_self parents k in
      elim (Bool-cases (ltb p q)) [
        | inl lower ↦ let l : p < q = ground arith in omega (arith, off_apart counts p q l)
        | inr upper ↦ let l : q < p = ground arith in omega (arith, off_apart counts q p l)
      ]

  scatter_step :
      (k p x : ℕ)
      → parents (suc k) < n
      → (scatter (suc k)).indices x ≡ (
          if off counts (parents (suc k)) + count_rounds parents k (parents (suc k)) == x
          then suc k
          else (scatter k).indices x)
  unfolding scatter_rounds
  scatter_step k p x h = rw (next_at k (parents (suc k)) h)

  entry_at :
      (k p j : ℕ)
      → k < n
      → p < n
      → j < count_rounds parents k p
      → get_elem? (children parents p k) j ≡ some ((scatter k).indices (off counts p + j))
  unfolding children
  entry_at zero p j h pn hj = absurd (omega (arith, count_zero parents p))
  entry_at (suc k) p j h pn hj = elim (Bool-cases (parents (suc k) == p)) [
    | inl hit ↦ elim (Bool-cases (j == count_rounds parents k p)) [
      | inl last ↦ ground (
        arith,
        scatter_step k p (off counts p + j) (in_range (suc k) (omega arith) h),
        get_elem?-append_last (children parents p k) (suc k) j,
        count-children parents p k,
      )
      | inr earlier ↦ ground (
        arith,
        scatter_step k p (off counts p + j) (in_range (suc k) (omega arith) h),
        get_elem?-append_left (children parents p k) (suc k ∷ []) j,
        count-children parents p k,
        count_step_self parents k,
        entry_at k p j (omega arith) pn,
      )
    ]
    | inr miss ↦
        let other : p ≢ parents (suc k) = ground arith in
        let hj' : j < count_rounds parents k p =
          omega (arith, count_step_other parents k p other) in
        ground (
          arith,
          scatter_step k p (off counts p + j) (in_range (suc k) (omega arith) h),
          get_elem?-append_left (children parents p k) [] j,
          count-children parents p k,
          position_apart k p j h other pn hj',
          entry_at k p j (omega arith) pn hj',
        )
  ]

-- The `ord`-th entry of a node's range, as `compiled_plan::child_index` reads it.
abbrev pub child_at : ChildLayout → ℕ → ℕ → ℕ
child_at layout p ord = layout.indices (layout.offsets p + ord)

module _ (n : ℕ) (parents : ℕ → ℕ)
    (in_range : (node : ℕ) → 0 < node → node < n → parents node < n) where
  pub child_layout-children :
      (p : ℕ)
      → p < n
      → ((make_child_layout n parents).counts p ≡ length (children parents p (n - 1)))
        × ((ord : ℕ)
            → ord < (make_child_layout n parents).counts p
            → get_elem? (children parents p (n - 1)) ord
              ≡ some (child_at (make_child_layout n parents) p ord))
  unfolding make_child_layout
  child_layout-children p h = (
    count-children parents p (n - 1),
    λ ord below.
        rw (offsets_at (count_rounds parents (n - 1)) n p h, child_at)
          (entry_at n parents in_range (n - 1) p ord (omega arith) h below),
  )
