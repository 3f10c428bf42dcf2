-- ===== src/FixedVector/Refine.antt =====
-- A fixed vector behaves as a list of at most `capacity` elements.
use axiom_vm.Prelude.{
  ℕ, zero, suc, ◌-◌, ◌≤◌, ◌<◌, ◌≡◌, refl, ap, Bool, true, false, List, [], ◌∷◌, ◌++◌, if◌then◌else◌,
  leb, ◌==◌, arith, length, take, length-set, length-take, ◌≢◌, ◌∙◌, sym, Bool-cases, inl, inr,
  ==→ne, take-set_next,
}
use axiom_vm.FixedVector.{FixedVector, push_back, pop_back, clear, as_span}

-- The array has the capacity's length, and the active elements lie in it.
pub record IsValid {ℓ} {A : Type ℓ} (capacity : ℕ) (v : FixedVector A) : Type 0 where
  pub storage : length v.slots ≡ capacity
  pub within : v.size ≤ capacity

-- What a client can ask of a vector.
pub data Op {ℓ} (A : Type ℓ) : Type ℓ where
  push : A → Op A
  pop : Op A
  reset : Op A

module _ {ℓ} {A : Type ℓ} where
  -- All but the last element of a list.
  abbrev pub init : List A → List A
  init [] = []
  init (x ∷ []) = []
  init (x ∷ y ∷ xs) = x ∷ init (y ∷ xs)

  init-take : (n : ℕ) (xs : List A) → suc n ≤ length xs → init (take (suc n) xs) ≡ take n xs
  init-take n [] h = elim h [ ]
  init-take zero (x ∷ xs) h = refl
  init-take (suc n) (x ∷ []) h = absurd (omega arith)
  init-take (suc n) (x ∷ y ∷ xs) h = ap (◌∷◌ x) (init-take n (y ∷ xs) (omega arith))

  init-take_ne : (n : ℕ) (xs : List A) → n ≢ 0 → n ≤ length xs → init (take n xs) ≡ take (n - 1) xs
  init-take_ne zero xs ne h = absurd (ne refl)
  init-take_ne (suc n) xs ne h =
      let e : n ≡ suc n - 1 = omega arith in init-take n xs h ∙ ap (λ k. take k xs) e

module _ {ℓ} {A : Type ℓ} (capacity : ℕ) where
  -- The operations of the vector in a row, with what each returns.
  pub apply : FixedVector A → Op A → FixedVector A × Bool
  apply v (push x) = push_back capacity v x
  apply v pop = pop_back v
  apply v reset = (clear v, true)

  pub run : FixedVector A → List (Op A) → FixedVector A × List Bool
  run v [] = (v, [])
  run v (op ∷ ops) =
      let (v', done) = apply v op in let (v'', answers) = run v' ops in (v'', done ∷ answers)

  -- The same on a plain list that refuses a push at the capacity.
  pub apply_list : List A → Op A → List A × Bool
  apply_list xs (push x) = if leb capacity (length xs) then (xs, false) else (xs ++ (x ∷ []), true)
  apply_list xs pop = if length xs == 0 then (xs, false) else (init xs, true)
  apply_list xs reset = ([], true)

  pub run_list : List A → List (Op A) → List A × List Bool
  run_list xs [] = (xs, [])
  run_list xs (op ∷ ops) =
      let (xs', done) = apply_list xs op in
      let (xs'', answers) = run_list xs' ops in (xs'', done ∷ answers)

  pub length-as_span : (v : FixedVector A) → IsValid capacity v → length (as_span v) ≡ v.size
  unfolding as_span
  length-as_span v valid = omega (arith, length-take v.size v.slots)

  pub apply-IsValid :
      (v : FixedVector A) (op : Op A) → IsValid capacity v → IsValid capacity (apply v op).0
  unfolding apply push_back pop_back clear
  apply-IsValid v (push x) valid = ground (arith, length-set v.slots v.size x)
  apply-IsValid v pop valid = ground arith
  apply-IsValid v reset valid = ground arith

  room : (v : FixedVector A) → IsValid capacity v → v.size ≤ length v.slots
  room v valid = omega arith

  free :
      (v : FixedVector A)
      → IsValid capacity v
      → leb capacity v.size ≡ false
      → v.size < length v.slots
  free v valid e = ground arith

  pub apply_refines :
      (v : FixedVector A) (op : Op A)
      → IsValid capacity v
      → let (v', done) = apply v op in (as_span v', done) ≡ apply_list (as_span v) op
  unfolding apply apply_list push_back pop_back clear as_span
  apply_refines v (push x) valid =
      rw (length-as_span v valid) (elim (Bool-cases (leb capacity v.size)) [
        | inl e ↦ rw e
        | inr e ↦ rw e (ap (λ xs. (xs, true)) (take-set_next v.slots v.size x (free v valid e)))
      ])
  apply_refines v pop valid = rw (length-as_span v valid) (elim (Bool-cases (v.size == 0)) [
    | inl e ↦ rw e
    | inr e ↦
        rw e
          (ap (λ xs. (xs, true)) (sym (init-take_ne v.size v.slots (==→ne _ _ e) (room v valid))))
  ])
  apply_refines v reset valid = refl

  -- In any sequence of `push_back`, `pop_back` and `clear` a vector whose array has the capacity's
  -- length answers each call as the bounded list does, ends with the same elements, and stays valid.
  pub run_refines :
      (ops : List (Op A)) (v : FixedVector A)
      → IsValid capacity v
      → let (v', answers) = run v ops in
        ((as_span v', answers) ≡ run_list (as_span v) ops) × IsValid capacity v'
  unfolding run run_list
  run_refines [] v valid = (refl, valid)
  run_refines (op ∷ ops) v valid =
      ground
        (arith, apply_refines v op valid, run_refines ops (apply v op).0 (apply-IsValid v op valid))
