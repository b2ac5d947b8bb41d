-- ===== src/Base/Folds.antt =====
-- Fold expressions over the indices below a bound.
use Prim.Native.Nat.{ℕ, zero, suc, ◌+◌, ◌≤◌, ◌<◌}
use mathlib.Core.Path.{◌≡◌, refl, subst}
use mathlib.Core.Logic.{◌≢◌, inl, inr}
use mathlib.Core.Bool.{Bool, true, false, ◌&&◌, ◌||◌}
use native.Mathlib.Omega.{arith}
use yorch.Base.Tests.{◌==◌, if◌then◌else◌, Bool-cases}

-- `(f(0) || ... || f(n - 1))`
unfoldable pub any_below : ℕ → (ℕ → Bool) → Bool
any_below zero f = false
any_below (suc n) f = any_below n f || f n

-- `(f(0) && ... && f(n - 1))`
unfoldable pub all_below : ℕ → (ℕ → Bool) → Bool
all_below zero f = true
all_below (suc n) f = all_below n f && f n

-- `(std::size_t {0} + ... + (f(i) ? 1 : 0))`
unfoldable pub count_below : ℕ → (ℕ → Bool) → ℕ
count_below zero f = 0
count_below (suc n) f = count_below n f + (if f n then 1 else 0)

module _ (f : ℕ → Bool) where
  pub any_below-false : (n i : ℕ) → any_below n f ≡ false → i < n → f i ≡ false
  unfolding any_below
  any_below-false zero i e h = absurd (omega arith)
  any_below-false (suc n) i e h = elim (Bool-cases (i == n)) [
    | inl last ↦ let same : n ≡ i = ground arith in subst (λ x. f x ≡ false) same (ground arith)
    | inr before ↦ any_below-false n i (ground arith) (ground arith)
  ]

  pub all_below-true : (n i : ℕ) → all_below n f ≡ true → i < n → f i ≡ true
  unfolding all_below
  all_below-true zero i e h = absurd (omega arith)
  all_below-true (suc n) i e h = elim (Bool-cases (i == n)) [
    | inl last ↦ let same : n ≡ i = ground arith in subst (λ x. f x ≡ true) same (ground arith)
    | inr before ↦ all_below-true n i (ground arith) (ground arith)
  ]

  pub all_below_intro : (n : ℕ) → ((i : ℕ) → i < n → f i ≡ true) → all_below n f ≡ true
  unfolding all_below
  all_below_intro zero h = refl
  all_below_intro (suc n) h =
      let before = all_below_intro n (λ i less. h i (omega arith)) in
      let last = h n (omega arith) in ground arith

  pub count_below_pos : (n i : ℕ) → i < n → f i ≡ true → 1 ≤ count_below n f
  unfolding count_below
  count_below_pos zero i h on = absurd (omega arith)
  count_below_pos (suc n) i h on = elim (Bool-cases (i == n)) [
    | inl last ↦
        let same : i ≡ n = ground arith in
        let here : f n ≡ true = subst (λ x. f x ≡ true) same on in ground arith
    | inr before ↦ let inner = count_below_pos n i (ground arith) on in omega arith
  ]

  -- Two indices that pass are counted twice.
  pub count_below_two : (n i j : ℕ) → i < j → j < n → f i ≡ true → f j ≡ true → 2 ≤ count_below n f
  unfolding count_below
  count_below_two zero i j h less on on' = absurd (omega arith)
  count_below_two (suc n) i j h less on on' = elim (Bool-cases (j == n)) [
    | inl last ↦
        let same : j ≡ n = ground arith in
        let here : f n ≡ true = subst (λ x. f x ≡ true) same on' in
        let first = count_below_pos n i (omega arith) on in ground arith
    | inr before ↦ let inner = count_below_two n i j h (ground arith) on on' in omega arith
  ]

  pub count_below_zero : (n i : ℕ) → count_below n f ≡ 0 → i < n → f i ≡ false
  count_below_zero n i e h = elim (Bool-cases (f i)) [
    | inl on ↦ let pos = count_below_pos n i h on in absurd (omega arith)
    | inr off ↦ off
  ]

  pub count_below_found : (n : ℕ) → count_below n f ≢ 0 → (i : ℕ) × (i < n) × (f i ≡ true)
  unfolding count_below
  count_below_found zero some_index = absurd (some_index refl)
  count_below_found (suc n) some_index = elim (Bool-cases (f n)) [
    | inl on ↦ (n, omega arith, on)
    | inr off ↦
        let (i, h, on) = count_below_found n (λ e. some_index (ground arith)) in
        (i, omega arith, on)
  ]

  pub any_below_none : (n : ℕ) → ((i : ℕ) → i < n → f i ≡ false) → any_below n f ≡ false
  unfolding any_below
  any_below_none zero h = refl
  any_below_none (suc n) h =
      let before = any_below_none n (λ i less. h i (omega arith)) in
      let last = h n (omega arith) in ground arith

  pub count_below_none : (n : ℕ) → ((i : ℕ) → i < n → f i ≡ false) → count_below n f ≡ 0
  unfolding count_below
  count_below_none zero h = refl
  count_below_none (suc n) h =
      let before = count_below_none n (λ i less. h i (omega arith)) in
      let last = h n (omega arith) in ground arith

  -- Indices that pass are counted once at most when they are all the same.
  pub count_below_one :
      (n : ℕ) → ((i j : ℕ) → i < n → j < n → f i ≡ true → f j ≡ true → i ≡ j) → count_below n f ≤ 1
  unfolding count_below
  count_below_one zero same = omega arith
  count_below_one (suc n) same = elim (Bool-cases (f n)) [
    | inl on ↦
        let before = count_below_none n (λ i less. elim (Bool-cases (f i)) [
          | inl on' ↦
              let e = same i n (omega arith) (omega arith) on' on in absurd (omega (arith, e))
          | inr off ↦ off
        ]) in
        ground arith
    | inr off ↦
        let before =
          count_below_one n λ i j less less' on on'. same i j (omega arith) (omega arith) on on' in
        ground arith
  ]
