-- ===== src/Tree/Levels.antt =====
-- What the builder's check on levels gives: the levels of a task tree that was built form a tree.
use mathlib.Core.List.{map-append, append-nil, append_assoc}
use yorch.Base.{
  ℕ, zero, suc, ◌+◌, ◌≤◌, ◌<◌, ◌≡◌, refl, true, false, inl, inr, none, some, List, [], ◌∷◌, ◌++◌,
  arith, ap, sym, ◌∙◌, ltb, Bool-cases, length, length-append,
}
use yorch.Tree.{TaskTreeNode, last_level, append_level_valid, build}
use yorch.Plan.Layout.{make_level_array}
use yorch.Plan.Compiled.{node_levels}
use yorch.Plan.Parents.{IsLevelSequence}

level_array_left :
    (xs : List ℕ) (a i : ℕ)
    → i < length xs
    → make_level_array (xs ++ a ∷ []) i ≡ make_level_array xs i
unfolding make_level_array
level_array_left [] a i h = elim h [ ]
level_array_left (x ∷ xs) a zero h = refl
level_array_left (x ∷ xs) a (suc i) h = level_array_left xs a i (omega arith)

level_array_last : (xs : List ℕ) (a : ℕ) → make_level_array (xs ++ a ∷ []) (length xs) ≡ a
unfolding make_level_array
level_array_last [] a = refl
level_array_last (x ∷ xs) a = level_array_last xs a

module _ {ℓ} {Task : Type ℓ} where
  level_array : List (TaskTreeNode Task) → ℕ → ℕ
  level_array nodes = make_level_array (node_levels nodes)

  length-node_levels :
      (nodes : List (TaskTreeNode Task)) → length (node_levels nodes) ≡ length nodes
  length-node_levels [] = refl
  length-node_levels (node ∷ nodes) = ap suc (length-node_levels nodes)

  last_level-array :
      (node : TaskTreeNode Task) (nodes : List (TaskTreeNode Task))
      → last_level node nodes ≡ make_level_array (node_levels (node ∷ nodes)) (length nodes)
  unfolding last_level make_level_array
  last_level-array node [] = refl
  last_level-array node (next ∷ rest) = last_level-array next rest

  append-left :
      (nodes : List (TaskTreeNode Task)) (node : TaskTreeNode Task) (i : ℕ)
      → i < length nodes
      → make_level_array (node_levels (nodes ++ node ∷ [])) i
        ≡ make_level_array (node_levels nodes) i
  append-left nodes node i h =
      rw (map-append (λ (x : TaskTreeNode Task). x.level) nodes (node ∷ [])) (
        level_array_left (node_levels nodes) node.level i (omega (arith, length-node_levels nodes)))

  append-last :
      (nodes : List (TaskTreeNode Task)) (node : TaskTreeNode Task)
      → make_level_array (node_levels (nodes ++ node ∷ [])) (length nodes) ≡ node.level
  append-last nodes node =
      rw
        (
          map-append (λ (x : TaskTreeNode Task). x.level) nodes (node ∷ []),
          ← length-node_levels nodes,
        )
        (level_array_last (node_levels nodes) node.level)

  abbrev pub HasLevelSequence : List (TaskTreeNode Task) → Type 0
  HasLevelSequence nodes = IsLevelSequence (length nodes) (make_level_array (node_levels nodes))

  valid_step :
      (node first : TaskTreeNode Task) (rest : List (TaskTreeNode Task))
      → append_level_valid node.level (first ∷ rest) ≡ true
      → (1 ≤ node.level) × (node.level ≤ last_level first rest + 1)
  unfolding append_level_valid
  valid_step node first rest e = ground arith

  first_level :
      (node : TaskTreeNode Task)
      → append_level_valid {Task = Task} node.level [] ≡ true
      → node.level ≡ 0
  unfolding append_level_valid
  first_level node e = ground arith

  append-HasLevelSequence :
      (nodes : List (TaskTreeNode Task)) (node : TaskTreeNode Task)
      → append_level_valid node.level nodes ≡ true
      → HasLevelSequence nodes
      → HasLevelSequence (nodes ++ node ∷ [])
  append-HasLevelSequence [] node e old = record {
    root_level = append-last [] node ∙ first_level node e;
    node_level = λ i h. absurd (omega arith);
  }
  append-HasLevelSequence (first ∷ rest) node e old = record {
    root_level = append-left (first ∷ rest) node 0 (omega arith) ∙ old.root_level;
    node_level = λ i h.
        let in_old : i < length (first ∷ rest) = omega (arith, length-append rest (node ∷ [])) in
        let at_i = append-left (first ∷ rest) node i in_old in
        elim (Bool-cases (ltb (suc i) (length (first ∷ rest)))) [
          | inl inside ↦
              let b : suc i < length (first ∷ rest) = ground arith in
              omega (arith, append-left (first ∷ rest) node (suc i) b, at_i, old.node_level i b)
          | inr last ↦
              let b : length rest ≡ i = ground arith in
              rw (← b) (
                omega (
                  arith,
                  append-last (first ∷ rest) node,
                  append-left (first ∷ rest) node (length rest) (omega arith),
                  last_level-array first rest,
                  valid_step node first rest e,
                ))
        ];
  }

  build_valid :
      (nodes calls : List (TaskTreeNode Task)) (node : TaskTreeNode Task)
      → append_level_valid node.level nodes ≡ true
      → build nodes (node ∷ calls) ≡ build (nodes ++ node ∷ []) calls
  unfolding build
  build_valid nodes calls node e = rw (e, build)

  build_invalid :
      (nodes calls : List (TaskTreeNode Task)) (node : TaskTreeNode Task)
      → append_level_valid node.level nodes ≡ false
      → build nodes (node ∷ calls) ≡ none
  unfolding build
  build_invalid nodes calls node e = rw (e, build)

  build_done : (nodes : List (TaskTreeNode Task)) → build nodes [] ≡ some nodes
  unfolding build
  build_done nodes = refl

  build_from-HasLevelSequence :
      (calls nodes : List (TaskTreeNode Task)) {built : List (TaskTreeNode Task)}
      → build nodes calls ≡ some built
      → HasLevelSequence nodes
      → HasLevelSequence built × (built ≡ nodes ++ calls)
  build_from-HasLevelSequence [] nodes {built} e old =
      let same : built ≡ nodes = cc (build_done nodes) in rw same (old, sym (append-nil nodes))
  build_from-HasLevelSequence (node ∷ calls) nodes {built} e old =
      elim (Bool-cases (append_level_valid node.level nodes)) [
        | inl valid ↦
            let (levels, same) =
              build_from-HasLevelSequence calls (nodes ++ node ∷ [])
                (sym (build_valid nodes calls node valid) ∙ e)
                (append-HasLevelSequence nodes node valid old) in
            (levels, same ∙ append_assoc nodes (node ∷ []) calls)
        | inr invalid ↦ cc (build_invalid nodes calls node invalid)
      ]

  -- When all calls of a chain of builder calls compile, the tree holds the nodes in the order of the
  -- calls, and their levels begin with 0, stay above 0 after it, and grow by at most 1.
  pub build-HasLevelSequence :
      (calls : List (TaskTreeNode Task)) {built : List (TaskTreeNode Task)}
      → build [] calls ≡ some built
      → HasLevelSequence built × (built ≡ calls)
  build-HasLevelSequence calls e = build_from-HasLevelSequence calls [] e empty
    where
      empty : HasLevelSequence []
      empty = record {
        root_level = unfold make_level_array in refl;
        node_level = λ i h. absurd (omega arith);
      }
