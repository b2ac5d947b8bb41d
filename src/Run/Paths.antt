-- ===== src/Run/Paths.antt =====
-- The path from the root of a compiled plan (include/yorch/plan/compiled_plan.hpp) to the node that
-- depth-first execution is at.
use yorch.Base.{
  ℕ, ◌<◌, ◌≡◌, ◌≢◌, ◌∙◌, ◌||◌, sym, subst, Bool, true, false, [], ◌∷◌, ◌==◌, ==_iff, Bool-cases,
  inl, inr, arith,
}
use yorch.Plan.Compiled.{CompiledPlan, child_index}
use yorch.Plan.Compiled.Structure.{IsTree}
use yorch.SlotLayout.Compact.{Ancestor, parent, above}
use yorch.Executor.Discipline.{ActivePath}

unfoldable pub on_path : ℕ → ActivePath → Bool
on_path j [] = false
on_path j ((p, live) ∷ path) = p == j || on_path j path

module _ {ℓ} {Task : Type ℓ} (plan : CompiledPlan Task) where
  -- The path holds the ancestors of node `i`, the direct parent first.
  unfoldable pub LeadsTo : ActivePath → ℕ → Type 0
  LeadsTo [] i = i ≡ 0
  LeadsTo ((p, live) ∷ path) i =
      (0 < i) × (i < plan.node_count) × (plan.parent_indices i ≡ p) × LeadsTo path p

module _ {ℓ} {Task : Type ℓ} (plan : CompiledPlan Task) (tree : IsTree plan)
    (pos : 0 < plan.node_count) where
  pub LeadsTo-lt : (path : ActivePath) (i : ℕ) → LeadsTo plan path i → i < plan.node_count
  unfolding LeadsTo
  LeadsTo-lt [] i e = omega arith
  LeadsTo-lt ((p, live) ∷ path) i (_, h, _, _) = h

  -- Every node of the path is an ancestor.
  pub LeadsTo-Ancestor :
      (path : ActivePath) (i j : ℕ)
      → LeadsTo plan path i
      → on_path j path ≡ true
      → Ancestor plan.parent_indices plan.node_count j i
  unfolding LeadsTo on_path
  LeadsTo-Ancestor [] i j leads on = cc
  LeadsTo-Ancestor ((p, live) ∷ path) i j (up, h, e, leads) on =
      let before = (tree.parent i up h).before in
      let inner : plan.parent_indices i ≢ plan.node_count = λ x. omega arith in
      elim (Bool-cases (p == j)) [
        | inl same ↦ parent i inner (e ∙ (==_iff p j).0 same)
        | inr other ↦ above i inner (
            subst (Ancestor plan.parent_indices plan.node_count j) (sym e)
              (LeadsTo-Ancestor path p j leads (rw other at on)))
      ]

  -- No node is on the path that leads to it.
  pub LeadsTo-fresh :
      (path : ActivePath) (i j : ℕ) → LeadsTo plan path i → on_path j path ≡ true → j < i
  unfolding LeadsTo on_path
  LeadsTo-fresh [] i j leads on = cc
  LeadsTo-fresh ((p, live) ∷ path) i j (up, h, e, leads) on =
      let before = (tree.parent i up h).before in
      elim (Bool-cases (p == j)) [
        | inl same ↦ ground arith
        | inr other ↦ let less = LeadsTo-fresh path p j leads (rw other at on) in omega arith
      ]

  pub LeadsTo-off : (path : ActivePath) (i : ℕ) → LeadsTo plan path i → on_path i path ≡ false
  LeadsTo-off path i leads = elim (Bool-cases (on_path i path)) [
    | inl on ↦ absurd (omega (arith, LeadsTo-fresh path i i leads on))
    | inr off ↦ off
  ]

  -- A child of the node that a path leads to.
  pub LeadsTo-child :
      (path : ActivePath) (i ord : ℕ) (live : Bool)
      → LeadsTo plan path i
      → ord < plan.child_counts i
      → LeadsTo plan ((i, live) ∷ path) (child_index plan i ord)
  unfolding LeadsTo
  LeadsTo-child path i ord live leads h =
      let (below, less, e) = tree.child_sound i ord (LeadsTo-lt path i leads) h in
      (omega arith, less, e, leads)

  -- A node of which the direct parent is not on the path is the root.
  pub LeadsTo-parent :
      (path : ActivePath) (i : ℕ)
      → LeadsTo plan path i
      → 0 < i
      → on_path (plan.parent_indices i) path ≡ true
  unfolding LeadsTo on_path
  LeadsTo-parent [] i leads up = absurd (omega arith)
  LeadsTo-parent ((p, live) ∷ path) i (_, _, e, _) up = ground arith
