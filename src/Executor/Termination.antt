-- ===== src/Executor/Termination.antt =====
-- The recursion of serial_dfs.hpp ends: each child stands behind its parent in the plan.
use yorch.Base.{
  ℕ, zero, suc, ◌+◌, ◌*◌, ◌-◌, ◌≤◌, ◌<◌, ◌≡◌, refl, true, false, inl, inr, Option, some, ◌==◌,
  ◌>>=◌, Bool-cases, arith,
}
use yorch.Result.{StepStatus, ok, is_abort_branch}
use yorch.Executor.Interface.{Invokers}
use yorch.Executor.Recursive.{
  run_node, run_children, after_child, begin_children, release_fanout, release_slot,
}

-- The child tables of a plan of `n` nodes: a child has a larger index than its parent.
pub record IsForward {S : Type 0} (inv : Invokers S) (n : ℕ) : Type 0 where
  pub child_bounds :
      (i ord : ℕ)
      → i < n
      → ord < inv.child_count i
      → (i < inv.child_index i ord) × (inv.child_index i ord < n)
  pub count_bound : (i : ℕ) → i < n → inv.child_count i ≤ n

abbrev pub Returns {ℓ} : {A : Type ℓ} → Option A → Type ℓ
Returns {A} o = (a : A) × (o ≡ some a)

-- Fuel that is enough for a plan of `n` nodes.
abbrev pub node_fuel : ℕ → ℕ
node_fuel n = n * (n + 2)

mul_mono : (a b c : ℕ) → a ≤ b → a * c ≤ b * c
mul_mono a b c h = grind arith

module _ {S : Type 0} (inv : Invokers S) (n : ℕ) (forward : IsForward inv n) where
  open inv use {child_count, child_index, enter_node}

  bind-Returns :
      {A B : Type 0} (o : Option A) (f : A → Option B)
      → Returns o
      → ((a : A) → Returns (f a))
      → Returns (o >>= f)
  bind-Returns o f (a, e) total = rw e (total a)

  map-Returns :
      {A B : Type 0} (o : Option A) (f : A → B) → Returns o → Returns (o >>= λ a. some (f a))
  map-Returns o f (a, e) = (f a, rw e)

  after_child-Returns :
      (rest : S → Option (StepStatus × S)) (q : StepStatus × S)
      → ((s : S) → Returns (rest s))
      → Returns (after_child inv rest q)
  after_child-Returns rest (c, t) total = elim (Bool-cases (is_abort_branch c)) [
    | inl on ↦ rw on (total t)
    | inr off ↦ elim (Bool-cases (ok c)) [
      | inl on ↦ rw (off, on) (total t)
      | inr failed ↦ rw (off, failed) (_, refl)
    ]
  ]

  mutual
    unfolding run_node run_children

    node-Returns :
        (f i m : ℕ) (s : S) → i + suc m ≡ n → suc m * (n + 2) ≤ f → Returns (run_node inv f i s)
    node-Returns zero i m s e h = absurd (omega arith)
    node-Returns (suc f) i m s e h = elim (Bool-cases (ok (enter_node i s).0.step)) [
      | inl passed ↦ rw passed (
          map-Returns _ (release_slot inv i (enter_node i s).0.payload_live) (
            children-Returns f i 0 (child_count i) m (enter_node i s).1 e (omega arith)
              (omega (arith, forward.count_bound i (omega arith)))))
      | inr failed ↦ rw failed (_, refl)
    ]

    children-Returns :
        (f i ord left m : ℕ) (s : S)
        → i + suc m ≡ n
        → ord + left ≡ child_count i
        → m * (n + 2) + left + 1 ≤ f
        → Returns (run_children inv f i ord s)
    children-Returns zero i ord left m s e l h = absurd (omega arith)
    children-Returns (suc f) i ord zero m s e l h =
        let last : (ord == child_count i) ≡ true = ground arith in rw last (_, refl)
    children-Returns (suc f) i ord (suc left) m s e l h =
        let inner : (ord == child_count i) ≡ false = ground arith in
        let c = child_index i ord in
        let (above, below) = forward.child_bounds i ord (omega arith) (omega arith) in
        rw inner (
          map-Returns _ (release_fanout inv i ord) (
            bind-Returns _ (after_child inv (run_children inv f i (suc ord)))
              (node-Returns f c (n - c - 1) (begin_children inv i ord s) (omega arith)
                (omega (arith, mul_mono (suc (n - c - 1)) m (n + 2) (omega arith))))
              (λ q.
                after_child-Returns (run_children inv f i (suc ord)) q
                  λ t. children-Returns f i (suc ord) left m t e (omega arith) (omega arith))))

  -- When children stand behind their parents in a plan of `n > 0` nodes, the recursive executor
  -- returns from the root within the fuel `n * (n + 2)`, whatever the tasks do.
  pub run_node-Returns : (s : S) → 0 < n → Returns (run_node inv (node_fuel n) 0 s)
  run_node-Returns s h =
      node-Returns (node_fuel n) 0 (n - 1) s (omega arith)
        (let e : suc (n - 1) ≡ n = omega arith in rw e (omega arith))
