-- ===== src/Storage.antt =====
-- The storage of a run's payloads by node: what include/yorch/slots/plan_exec_slots.hpp promises to the
-- executor, whichever layout stands behind it.
pub mod Maybe
pub mod Compact
pub mod Typed
use yorch.Base.{
  ℕ, sym, ap, update_same, ◌<◌, ◌≡◌, ◌≢◌, Bool, true, false, Option, none, some, update,
}

-- The operations of `plan_exec_slots_impl` on a node that owns storage. They are `none` where an
-- assertion fails or an object's lifetime would begin or end twice. `assign` is an assignment through
-- the reference that `get` returns; `out_emplace` and `out_destroy` are those of the sink `out<I>()`.
pub record SlotOps (V Store : Type 0) : Type 0 where
  pub emplace : ℕ → V → Store → Option Store
  pub get : ℕ → Store → Option V
  pub assign : ℕ → V → Store → Option Store
  pub destroy : ℕ → Store → Option Store
  pub has_value : ℕ → Store → Bool
  pub out_emplace : ℕ → V → Store → Option Store
  pub out_destroy : ℕ → Store → Option Store

-- The abstract view: the payload of each node, if it is alive.
abbrev pub Payloads : Type 0 → Type 0
Payloads V = ℕ → Option V

-- A step on the storage that the abstract view follows.
pub record Stepped {V Store : Type 0} (IsValid : Store → Type 0) (view : Store → Payloads V)
    (after : Payloads V) (outcome : Option Store) : Type 0 where
  pub store : Store
  pub returned : outcome ≡ some store
  pub valid : IsValid store
  pub viewed : (j : ℕ) → view store j ≡ after j

module _ {V Store : Type 0} (IsValid : Store → Type 0) (view : Store → Payloads V) where
  -- Taking nothing out of an empty node.
  pub unchanged-Stepped :
      (i : ℕ) (s : Store) (o : Option Store)
      → IsValid s
      → view s i ≡ none
      → o ≡ some s
      → Stepped IsValid view (update (view s) i none) o
  unchanged-Stepped i s o valid empty e = record {
    store = s;
    returned = e;
    valid = valid;
    viewed = λ j. sym (ap (λ a. a j) (update_same (view s) i none (sym empty)));
  }

-- The storage refines the map from nodes to payloads, for nodes below `n` that own storage, of
-- which `maybe` says that they may leave it empty. `Apart` nodes may be alive at the same time.
pub record IsStorage {V Store : Type 0} (ops : SlotOps V Store) (n : ℕ) (payload maybe : ℕ → Bool)
    (Apart : ℕ → ℕ → Type 0) (IsValid : Store → Type 0) (view : Store → Payloads V) : Type 0 where
  pub emplace_law :
      (i : ℕ) (v : V) (s : Store)
      → i < n
      → payload i ≡ true
      → IsValid s
      → view s i ≡ none
      → ((j : ℕ) → view s j ≢ none → Apart j i)
      → Stepped IsValid view (update (view s) i (some v)) (ops.emplace i v s)
  pub get_law : (i : ℕ) (v : V) (s : Store) → IsValid s → view s i ≡ some v → ops.get i s ≡ some v
  pub assign_law :
      (i : ℕ) (v w : V) (s : Store)
      → IsValid s
      → view s i ≡ some v
      → Stepped IsValid view (update (view s) i (some w)) (ops.assign i w s)
  pub destroy_law :
      (i : ℕ) (v : V) (s : Store)
      → IsValid s
      → view s i ≡ some v
      → Stepped IsValid view (update (view s) i none) (ops.destroy i s)
  pub destroy_empty :
      (i : ℕ) (s : Store)
      → i < n
      → payload i ≡ true
      → maybe i ≡ true
      → IsValid s
      → view s i ≡ none
      → ((j : ℕ) → view s j ≢ none → Apart j i)
      → Stepped IsValid view (update (view s) i none) (ops.destroy i s)
  pub has_value_full :
      (i : ℕ) (v : V) (s : Store)
      → maybe i ≡ true
      → IsValid s
      → view s i ≡ some v
      → ops.has_value i s ≡ true
  pub out_emplace_law :
      (i : ℕ) (v : V) (s : Store)
      → i < n
      → payload i ≡ true
      → maybe i ≡ true
      → IsValid s
      → view s i ≡ none
      → ((j : ℕ) → view s j ≢ none → Apart j i)
      → Stepped IsValid view (update (view s) i (some v)) (ops.out_emplace i v s)
  pub out_destroy_law :
      (i : ℕ) (v : V) (s : Store)
      → maybe i ≡ true
      → IsValid s
      → view s i ≡ some v
      → Stepped IsValid view (update (view s) i none) (ops.out_destroy i s)
  pub out_destroy_empty :
      (i : ℕ) (s : Store)
      → i < n
      → payload i ≡ true
      → maybe i ≡ true
      → IsValid s
      → view s i ≡ none
      → ((j : ℕ) → view s j ≢ none → Apart j i)
      → Stepped IsValid view (update (view s) i none) (ops.out_destroy i s)
