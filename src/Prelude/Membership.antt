-- ===== src/Prelude/Membership.antt =====
-- Which elements a list has.
use axiom_vm.Prelude.Lists.{All}
use mathlib.Core.Path.{◌≡◌, refl}
use mathlib.Core.Logic.{◌⊎◌, inl, inr}
use mathlib.Core.List.{List, [], ◌∷◌, ◌++◌}

pub data IsIn {ℓ} {A : Type ℓ} (a : A) : List A → Type ℓ where
  first : {xs : List A} → IsIn a (a ∷ xs)
  later : {b : A} {xs : List A} → IsIn a xs → IsIn a (b ∷ xs)

pub All-of_in {ℓ κ} :
    {A : Type ℓ} (P : A → Type κ) (xs : List A) → ((a : A) → IsIn a xs → P a) → All P xs
All-of_in P [] h = tt
All-of_in P (x ∷ xs) h = (h x first, All-of_in P xs (λ a i. h a (later i)))

pub all_at {ℓ κ} : {A : Type ℓ} (P : A → Type κ) {a : A} {xs : List A} → IsIn a xs → All P xs → P a
all_at P first h = h.0
all_at P (later i) h = all_at P i h.1

pub IsIn-append_left {ℓ} :
    {A : Type ℓ} {a : A} {xs : List A} (ys : List A) → IsIn a xs → IsIn a (xs ++ ys)
IsIn-append_left ys first = first
IsIn-append_left ys (later i) = later (IsIn-append_left ys i)

pub IsIn-append_right {ℓ} :
    {A : Type ℓ} {a : A} (xs : List A) {ys : List A} → IsIn a ys → IsIn a (xs ++ ys)
IsIn-append_right [] i = i
IsIn-append_right (x ∷ xs) i = later (IsIn-append_right xs i)

pub All-map {ℓ κ μ} :
    {A : Type ℓ} {P : A → Type κ} {Q : A → Type μ} (xs : List A)
    → ((a : A) → P a → Q a)
    → All P xs
    → All Q xs
All-map [] f h = tt
All-map (x ∷ xs) f h = (f x h.0, All-map xs f h.1)

pub IsIn-cases {ℓ} : {A : Type ℓ} {a b : A} {xs : List A} → IsIn a (b ∷ xs) → (a ≡ b) ⊎ IsIn a xs
IsIn-cases first = inl refl
IsIn-cases (later i) = inr i
