-- ===== src/Plan/ChildTable.antt =====
-- The child tables of `make_child_layout` (include/yorch/plan/layout.hpp) as a relation between
-- nodes and their parents.
use mathlib.Core.List.{append-nil}
use yorch.Base.{
  ℕ, zero, suc, ◌-◌, ◌≤◌, ◌<◌, ◌≡◌, ◌∙◌, refl, sym, true, false, inl, inr, some, [], ◌∷◌, ◌++◌,
  ◌==◌, Bool-cases, ==_iff, arith, length, get_elem?, get_elem?-append_left, get_elem?-append_last,
  get_elem?-append_cases, lt_of_get_elem?, length-append,
}
use yorch.Plan.Layout.{ChildLayout, make_child_layout}
use yorch.Plan.Children.{children, child_at, child_layout-children}

some_inj : {a b : ℕ} → some a ≡ some b → a ≡ b
some_inj e = cc

-- The list of children grows by the node of the round, or stays.
children_hit :
    (parents : ℕ → ℕ) (p k : ℕ)
    → (parents (suc k) == p) ≡ true
    → children parents p (suc k) ≡ children parents p k ++ suc k ∷ []
unfolding children
children_hit parents p k hit = rw hit

children_miss :
    (parents : ℕ → ℕ) (p k : ℕ)
    → (parents (suc k) == p) ≡ false
    → children parents p (suc k) ≡ children parents p k
unfolding children
children_miss parents p k miss = rw miss (append-nil (children parents p k))

children-zero : (parents : ℕ → ℕ) (p : ℕ) → children parents p 0 ≡ []
unfolding children
children-zero parents p = refl

module _ (parents : ℕ → ℕ) (p : ℕ) where
  child_sound :
      (k j c : ℕ)
      → get_elem? (children parents p k) j ≡ some c
      → (0 < c) × (c ≤ k) × (parents c ≡ p)
  child_sound zero j c e = cc (children-zero parents p)
  child_sound (suc k) j c e = elim (Bool-cases (parents (suc k) == p)) [
    | inl hit ↦
        elim (get_elem?-append_cases (children parents p k) (suc k) c j
          (rw (children_hit parents p k hit) at e)) [
            | inl (old, _) ↦ let (a, b, d) = child_sound k j c old in (a, omega arith, d)
            | inr (_, same) ↦
                rw (← same) (omega arith, omega arith, (==_iff (parents (suc k)) p).0 hit)
          ]
    | inr miss ↦
        let (a, b, d) = child_sound k j c (rw (children_miss parents p k miss) at e) in
        (a, omega arith, d)
  ]

  child_complete :
      (k c : ℕ)
      → 0 < c
      → c ≤ k
      → parents c ≡ p
      → (j : ℕ) × (get_elem? (children parents p k) j ≡ some c)
  child_complete zero c pos le e = absurd (omega arith)
  child_complete (suc k) c pos le e = elim (Bool-cases (c == suc k)) [
    | inl last ↦
        let same : c ≡ suc k = (==_iff c (suc k)).0 last in
        let hit : (parents (suc k) == p) ≡ true = (==_iff (parents (suc k)) p).1 (rw same at e) in
        (
          length (children parents p k),
          rw (children_hit parents p k hit, same)
              (get_elem?-append_last (children parents p k) (suc k) _ refl),
        )
    | inr earlier ↦
        let (j, found) = child_complete k c pos (ground arith) e in
        elim (Bool-cases (parents (suc k) == p)) [
          | inl hit ↦ (
            j,
            rw (children_hit parents p k hit) (
                get_elem?-append_left (children parents p k) _ j (lt_of_get_elem? _ j found)
                ∙ found),
          )
          | inr miss ↦ (j, rw (children_miss parents p k miss) found)
        ]
  ]

  child_ordered :
      (k i j c d : ℕ)
      → i < j
      → get_elem? (children parents p k) i ≡ some c
      → get_elem? (children parents p k) j ≡ some d
      → c < d
  child_ordered zero i j c d h e f = cc (children-zero parents p)
  child_ordered (suc k) i j c d h e f = elim (Bool-cases (parents (suc k) == p)) [
    | inr miss ↦
        child_ordered k i j c d h (rw (children_miss parents p k miss) at e)
          (rw (children_miss parents p k miss) at f)
    | inl hit ↦
        elim (get_elem?-append_cases (children parents p k) (suc k) c i
          (rw (children_hit parents p k hit) at e)) [
            | inr (last, _) ↦
                elim (get_elem?-append_cases (children parents p k) (suc k) d j
                  (rw (children_hit parents p k hit) at f)) [
                    | inl (_, b) ↦ absurd (omega arith)
                    | inr (b, _) ↦ absurd (omega arith)
                  ]
            | inl (old, _) ↦
                elim (get_elem?-append_cases (children parents p k) (suc k) d j
                  (rw (children_hit parents p k hit) at f)) [
                    | inl (old', _) ↦ child_ordered k i j c d h old old'
                    | inr (_, same) ↦ let (_, b, _) = child_sound k i c old in omega arith
                  ]
          ]
  ]

  length-children-le : (k : ℕ) → length (children parents p k) ≤ k
  length-children-le zero = rw (children-zero parents p) (omega arith)
  length-children-le (suc k) = elim (Bool-cases (parents (suc k) == p)) [
    | inl hit ↦
        rw (children_hit parents p k hit)
          (omega (arith, length-children-le k, length-append (children parents p k) (suc k ∷ [])))
    | inr miss ↦ rw (children_miss parents p k miss) (omega (arith, length-children-le k))
  ]

-- What the child tables of a plan of `n` nodes say of its parent table.
pub record IsChildTable (n : ℕ) (parents : ℕ → ℕ) (layout : ChildLayout) : Type 0 where
  pub sound :
      (p ord : ℕ)
      → p < n
      → ord < layout.counts p
      → (0 < child_at layout p ord)
        × (child_at layout p ord < n)
        × (parents (child_at layout p ord) ≡ p)
  pub complete :
      (node : ℕ)
      → 0 < node
      → node < n
      → (ord : ℕ) × (ord < layout.counts (parents node))
        × (child_at layout (parents node) ord ≡ node)
  pub ordered :
      (p i j : ℕ) → p < n → i < j → j < layout.counts p → child_at layout p i < child_at layout p j
  pub count_le : (p : ℕ) → p < n → layout.counts p ≤ n - 1

module _ (n : ℕ) (parents : ℕ → ℕ)
    (in_range : (node : ℕ) → 0 < node → node < n → parents node < n) where
  layout_at :
      (p ord : ℕ)
      → p < n
      → ord < (make_child_layout n parents).counts p
      → get_elem? (children parents p (n - 1)) ord
        ≡ some (child_at (make_child_layout n parents) p ord)
  layout_at p ord h b = (child_layout-children n parents in_range p h).1 ord b

  count_at :
      (p : ℕ) → p < n → (make_child_layout n parents).counts p ≡ length (children parents p (n - 1))
  count_at p h = (child_layout-children n parents in_range p h).0

  -- When each node behind the root has its parent in range, the three arrays of
  -- `make_child_layout` list, for each node, exactly the nodes that have it as parent, in increasing
  -- order.
  pub make_child_layout-IsChildTable : IsChildTable n parents (make_child_layout n parents)
  make_child_layout-IsChildTable = record {
    sound = λ p ord h b.
        let (pos, le, e) = child_sound parents p (n - 1) ord _ (layout_at p ord h b) in
        (pos, omega arith, e);
    complete = λ node pos h.
        let p = parents node in
        let (ord, found) = child_complete parents p (n - 1) node pos (omega arith) refl in
        let b : ord < (make_child_layout n parents).counts p = omega (
          arith,
          count_at p (in_range node pos h),
          lt_of_get_elem? (children parents p (n - 1)) ord found,
        ) in
        (ord, b, some_inj (sym (layout_at p ord (in_range node pos h) b) ∙ found));
    ordered = λ p i j h lt b.
        child_ordered parents p (n - 1) i j _ _ lt (layout_at p i h (omega arith))
          (layout_at p j h b);
    count_le = λ p h. omega (arith, count_at p h, length-children-le parents p (n - 1));
  }
