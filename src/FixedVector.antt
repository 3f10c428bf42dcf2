-- ===== src/FixedVector.antt =====
-- include/axiom/fixed_vector.hpp: a bounded vector in a fixed array.
pub mod Refine
use axiom_vm.Prelude.{
  ℕ, ◌+◌, ◌-◌, Bool, true, false, List, [], ◌∷◌, if◌then◌else◌, ltb, leb, ◌==◌, length, take, set,
  get_or,
}

-- `FixedVector<T, Capacity>`: the whole array `data_`, and `size_`.
pub record FixedVector {ℓ} (A : Type ℓ) : Type ℓ where
  pub slots : List A
  pub size : ℕ

module _ {ℓ} {A : Type ℓ} (capacity : ℕ) where
  -- `emplace_back` constructs the element in place, and is the same otherwise.
  unfoldable pub push_back : FixedVector A → A → FixedVector A × Bool
  push_back v value =
      if leb capacity v.size
      then (v, false)
      else (record v { slots = set v.slots v.size value; size = v.size + 1 }, true)

  unfoldable pub full : FixedVector A → Bool
  full v = leb capacity v.size

module _ {ℓ} {A : Type ℓ} where
  unfoldable pub pop_back : FixedVector A → FixedVector A × Bool
  pop_back v = if v.size == 0 then (v, false) else (record v { size = v.size - 1 }, true)

  unfoldable pub clear : FixedVector A → FixedVector A
  clear v = record v { size = 0 }

  unfoldable pub is_empty : FixedVector A → Bool
  is_empty v = v.size == 0

  -- `as_span`: the active elements.
  unfoldable pub as_span : FixedVector A → List A
  as_span v = take v.size v.slots
