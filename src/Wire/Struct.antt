-- ===== src/Wire/Struct.antt =====
-- Packed structs: what `std::memcpy` between a `[[gnu::packed]]` struct and a byte buffer does
-- on a little-endian machine. A signed field is held as its two's complement pattern.
use axiom_vm.Prelude.{
  ℕ, ◌+◌, ◌≤◌, ◌<◌, ◌≡◌, refl, ap, ◌∙◌, List, [], ◌∷◌, ◌++◌, length, take, drop, le_bytes, le_value,
  range_of, All, IsByte, arith, append_assoc, length-append, length-le_bytes, le_value-le_bytes,
  le_bytes-le_value, le_bytes-IsByte, take-length-append, drop-length-append, length-take,
  length-drop, le_value-lt, take-add, All-take, All-drop, All-append, sym, subst,
}

-- The values of a struct whose fields have the widths given in bytes.
abbrev pub Values : List ℕ → Type 0
Values [] = Unit {0}
Values (w ∷ ws) = ℕ × Values ws

-- Every value fits into its field.
abbrev pub InRange : (ws : List ℕ) → Values ws → Type 0
InRange [] vs = Unit {0}
InRange (w ∷ ws) (v, vs) = (v < range_of w) × InRange ws vs

abbrev pub size_of : List ℕ → ℕ
size_of [] = 0
size_of (w ∷ ws) = w + size_of ws

-- The object representation of a packed struct.
unfoldable pub to_memory : (ws : List ℕ) → Values ws → List ℕ
to_memory [] vs = []
to_memory (w ∷ ws) (v, vs) = le_bytes w v ++ to_memory ws vs

unfoldable pub from_memory : (ws : List ℕ) → List ℕ → Values ws
from_memory [] bs = tt
from_memory (w ∷ ws) bs = (le_value (take w bs), from_memory ws (drop w bs))

-- A struct type by its field widths, with its fields in order.
pub record Struct (S : Type 0) : Type 0 where
  pub widths : List ℕ
  pub fields : S → Values widths
  pub make : Values widths → S
  pub make-fields : (s : S) → make (fields s) ≡ s
  pub fields-make : (vs : Values widths) → fields (make vs) ≡ vs

pub length-to_memory : (ws : List ℕ) (vs : Values ws) → length (to_memory ws vs) ≡ size_of ws
unfolding to_memory
length-to_memory [] vs = refl
length-to_memory (w ∷ ws) (v, vs) = omega (
  arith,
  length-append (le_bytes w v) (to_memory ws vs),
  length-le_bytes w v,
  length-to_memory ws vs,
)

-- Reading back what was written gives the values, whatever follows in the buffer.
pub from_memory-to_memory :
    (ws : List ℕ) (vs : Values ws) (rest : List ℕ)
    → InRange ws vs
    → from_memory ws (to_memory ws vs ++ rest) ≡ vs
unfolding from_memory to_memory
from_memory-to_memory [] vs rest h = refl
from_memory-to_memory (w ∷ ws) (v, vs) rest h =
    rw (append_assoc, take-length-append w (le_bytes w v) _ (length-le_bytes w v))
      (rw (drop-length-append w (le_bytes w v) _ (length-le_bytes w v))
        (rw (le_value-le_bytes w v h.0, from_memory-to_memory ws vs rest h.1)))

-- Writing back what was read gives the bytes that the struct covers.
pub to_memory-from_memory :
    (ws : List ℕ) (bs : List ℕ)
    → All IsByte bs
    → size_of ws ≤ length bs
    → to_memory ws (from_memory ws bs) ≡ take (size_of ws) bs
unfolding from_memory to_memory
to_memory-from_memory [] bs hb hl = refl
to_memory-from_memory (w ∷ ws) bs hb hl =
    rw
      (to_memory-from_memory ws (drop w bs) (All-drop IsByte w bs hb)
        (omega (arith, length-drop w bs)))
      (ap (λ t. t ++ take (size_of ws) (drop w bs)) front ∙ sym (take-add w (size_of ws) bs))
  where
    front : le_bytes w (le_value (take w bs)) ≡ take w bs
    front =
        let e : length (take w bs) ≡ w = omega (arith, length-take w bs) in
        subst (λ k. le_bytes k (le_value (take w bs)) ≡ take w bs) e
          (le_bytes-le_value (take w bs) (All-take IsByte w bs hb))

pub from_memory-InRange :
    (ws : List ℕ) (bs : List ℕ)
    → All IsByte bs
    → size_of ws ≤ length bs
    → InRange ws (from_memory ws bs)
unfolding from_memory
from_memory-InRange [] bs hb hl = tt
from_memory-InRange (w ∷ ws) bs hb hl = (
  subst (λ k. le_value (take w bs) < range_of k) (omega (arith, length-take w bs))
      (le_value-lt (take w bs) (All-take IsByte w bs hb)),
  from_memory-InRange ws (drop w bs) (All-drop IsByte w bs hb) (omega (arith, length-drop w bs)),
)

pub to_memory-All : (ws : List ℕ) (vs : Values ws) → All IsByte (to_memory ws vs)
unfolding to_memory
to_memory-All [] vs = tt
to_memory-All (w ∷ ws) (v, vs) =
    All-append IsByte (le_bytes w v) _ (le_bytes-IsByte w v) (to_memory-All ws vs)

-- `memcpy` of a struct out of a buffer, and into the front of one.
unfoldable pub load : {S : Type 0} → Struct S → List ℕ → S
load s buf = s.make (from_memory s.widths buf)

unfoldable pub store : {S : Type 0} → Struct S → S → List ℕ → List ℕ
store s h buf = to_memory s.widths (s.fields h) ++ drop (size_of s.widths) buf
