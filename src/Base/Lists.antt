-- ===== src/Base/Lists.antt =====
-- Lists measured and indexed by native numbers, and arrays as functions with one entry changed.
use Prim.Native.Nat.{ℕ, zero, suc, ◌+◌, ◌<◌}
use mathlib.Core.Path.{◌≡◌, refl, ap, ◌∙◌, fun_ext}
use mathlib.Core.List.{List, [], ◌∷◌, ◌++◌}
use mathlib.Core.Logic.{◌≢◌, ◌⊎◌, inl, inr}
use mathlib.Core.Option.{Option, none, some}
use native.Mathlib.Omega.{arith}
use yorch.Base.Tests.{◌==◌, ==_iff, Bool-cases, if◌then◌else◌}

module _ {ℓ} {A : Type ℓ} where
  abbrev pub length : List A → ℕ
  length [] = 0
  length (x ∷ xs) = suc (length xs)

  abbrev pub get_elem? : List A → ℕ → Option A
  get_elem? [] i = none
  get_elem? (x ∷ xs) zero = some x
  get_elem? (x ∷ xs) (suc i) = get_elem? xs i

  -- `a[i] = v`: the array with entry `i` written.
  abbrev pub update : (ℕ → A) → ℕ → A → ℕ → A
  update a i v j = if i == j then v else a j

  pub length-append : (xs ys : List A) → length (xs ++ ys) ≡ length xs + length ys
  length-append [] ys = omega arith
  length-append (x ∷ xs) ys = omega (arith, length-append xs ys)

  pub get_elem?-append_left :
      (xs ys : List A) (i : ℕ) → i < length xs → get_elem? (xs ++ ys) i ≡ get_elem? xs i
  get_elem?-append_left [] ys i h = elim h [ ]
  get_elem?-append_left (x ∷ xs) ys zero h = refl
  get_elem?-append_left (x ∷ xs) ys (suc i) h = get_elem?-append_left xs ys i (omega arith)

  pub get_elem?-append_last :
      (xs : List A) (a : A) (i : ℕ) → i ≡ length xs → get_elem? (xs ++ a ∷ []) i ≡ some a
  get_elem?-append_last [] a zero h = refl
  get_elem?-append_last [] a (suc i) h = absurd (omega arith)
  get_elem?-append_last (x ∷ xs) a zero h = absurd (omega arith)
  get_elem?-append_last (x ∷ xs) a (suc i) h = get_elem?-append_last xs a i (omega arith)

  -- An entry of a list with one more item is an entry of the list, or that item behind the others.
  pub get_elem?-append_cases :
      (xs : List A) (a c : A) (i : ℕ)
      → get_elem? (xs ++ a ∷ []) i ≡ some c
      → ((get_elem? xs i ≡ some c) × (i < length xs)) ⊎ ((i ≡ length xs) × (a ≡ c))
  get_elem?-append_cases [] a c zero e = inr (refl, cc)
  get_elem?-append_cases [] a c (suc i) e = cc
  get_elem?-append_cases (x ∷ xs) a c zero e = inl (e, omega arith)
  get_elem?-append_cases (x ∷ xs) a c (suc i) e = elim (get_elem?-append_cases xs a c i e) [
    | inl (old, b) ↦ inl (old, omega arith)
    | inr (last, same) ↦ inr (omega arith, same)
  ]

  pub lt_of_get_elem? : (xs : List A) (i : ℕ) {c : A} → get_elem? xs i ≡ some c → i < length xs
  lt_of_get_elem? [] i e = cc
  lt_of_get_elem? (x ∷ xs) zero e = omega arith
  lt_of_get_elem? (x ∷ xs) (suc i) e = omega (arith, lt_of_get_elem? xs i e)

module _ {ℓ} {A : Type ℓ} (a : ℕ → A) (i : ℕ) (v : A) where
  pub update_here : update a i v i ≡ v
  update_here = rw ((==_iff i i).1 refl) refl

  pub update_there : (j : ℕ) → i ≢ j → update a i v j ≡ a j
  update_there j ne = elim (Bool-cases (i == j)) [
    | inl same ↦ absurd (ne ((==_iff i j).0 same))
    | inr other ↦ rw other refl
  ]

  -- An entry that is set to what it is.
  pub update_same : v ≡ a i → update a i v ≡ a
  update_same e = fun_ext λ j. elim (Bool-cases (i == j)) [
    | inl same ↦ rw same (e ∙ ap a ((==_iff i j).0 same))
    | inr other ↦ rw other refl
  ]
