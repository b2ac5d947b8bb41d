-- ===== src/Storage/Maybe.antt =====
-- include/yorch/detail/storage/maybe_storage.hpp: storage for an object that may be there. An operation
-- is `none` where an assertion fails or where an object's lifetime would be started or ended twice.
use yorch.Base.{◌≡◌, refl, Bool, true, false, not, Option, none, some, if◌then◌else◌, ◌>>=◌, arith}

-- `maybe_storage`: the object that lives in its bytes, and `engaged_`.
pub record MaybeStorage (V : Type 0) : Type 0 where
  pub object : Option V
  pub engaged : Bool

module _ {V : Type 0} where
  abbrev pub lives : MaybeStorage V → Bool
  lives storage = elim storage.object [ none ↦ false | some v ↦ true ]

  unfoldable pub empty : MaybeStorage V
  empty = record { object = none; engaged = false }

  -- `std::construct_at(ptr(), ...)` and `std::destroy_at(ptr())`
  unfoldable pub start_lifetime : V → MaybeStorage V → Option (MaybeStorage V)
  start_lifetime v storage =
      if lives storage then none else some (record storage { object = some v })

  unfoldable pub end_lifetime : MaybeStorage V → Option (MaybeStorage V)
  end_lifetime storage = if lives storage then some (record storage { object = none }) else none

  unfoldable pub emplace : V → MaybeStorage V → Option (MaybeStorage V)
  unfolding start_lifetime
  emplace v storage =
      if storage.engaged
      then none
      else (start_lifetime v storage >>= λ s. some (record s { engaged = true }))

  unfoldable pub destroy : MaybeStorage V → Option (MaybeStorage V)
  unfolding end_lifetime
  destroy storage =
      if not storage.engaged
      then some storage
      else (end_lifetime storage >>= λ s. some (record s { engaged = false }))

  unfoldable pub has_value : MaybeStorage V → Bool
  has_value storage = storage.engaged

  unfoldable pub get : MaybeStorage V → Option V
  get storage = if storage.engaged then storage.object else none

  -- `get() = v`
  unfoldable pub assign : V → MaybeStorage V → Option (MaybeStorage V)
  unfolding get
  assign v storage = get storage >>= λ old. some (record storage { object = some v })

  -- The constructors from another storage.
  unfoldable pub copy_of : MaybeStorage V → Option (MaybeStorage V)
  unfolding has_value get emplace empty
  copy_of other = if has_value other then (get other >>= λ v. emplace v empty) else some empty

  -- `assign_from`; `assignable` is `std::is_assignable_v` of the object's type.
  unfoldable pub assign_from : Bool → MaybeStorage V → MaybeStorage V → Option (MaybeStorage V)
  unfolding has_value get emplace destroy assign
  assign_from assignable other storage =
      if has_value other
      then (if storage.engaged
          then (if assignable
              then (get other >>= λ v. assign v storage)
              else (destroy storage >>= λ s. get other >>= λ v. emplace v s))
          else (get other >>= λ v. emplace v storage))
      else destroy storage

  -- The flag tells whether an object lives in the storage.
  abbrev pub IsSound : MaybeStorage V → Type 0
  IsSound storage = storage.engaged ≡ lives storage

  pub emplace-IsSound :
      (v : V) (s : MaybeStorage V)
      → IsSound s
      → s.object ≡ none
      → emplace v s ≡ some (record { object = some v; engaged = true })
  unfolding emplace start_lifetime
  emplace-IsSound v s sound e = ground (arith, sound)

  pub destroy-IsSound :
      (s : MaybeStorage V)
      → IsSound s
      → destroy s ≡ some (record { object = none; engaged = false })
  unfolding destroy end_lifetime
  destroy-IsSound s sound = ground (arith, sound)

  pub get-IsSound : (s : MaybeStorage V) → IsSound s → get s ≡ s.object
  unfolding get
  get-IsSound s sound = ground (arith, sound)

  assigned :
      (assignable : Bool) (other s : MaybeStorage V)
      → IsSound other
      → IsSound s
      → assign_from assignable other s
        ≡ some (record { object = other.object; engaged = lives other })
  unfolding assign_from has_value get emplace destroy assign start_lifetime end_lifetime
  assigned assignable other s there here = ground arith

  -- Assigning one storage to another, whichever of the two holds an object and whether or not the
  -- objects can be assigned, goes through and leaves in the target what the source holds.
  pub assign_from-IsSound :
      (assignable : Bool) (other s : MaybeStorage V)
      → IsSound other
      → IsSound s
      → (after : MaybeStorage V) × (assign_from assignable other s ≡ some after)
        × (after.object ≡ other.object)
        × IsSound after
  assign_from-IsSound assignable other s there here = (
    record { object = other.object; engaged = lives other },
    assigned assignable other s there here,
    refl,
    refl,
  )

  -- A storage that is constructed from another one holds what the other holds.
  pub copy_of-IsSound :
      (other : MaybeStorage V)
      → IsSound other
      → (copy : MaybeStorage V) × (copy_of other ≡ some copy)
        × (copy.object ≡ other.object)
        × IsSound copy
  unfolding copy_of has_value get emplace empty start_lifetime
  copy_of-IsSound other there =
      (record { object = other.object; engaged = lives other }, ground arith, refl, refl)
