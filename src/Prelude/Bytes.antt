-- ===== src/Prelude/Bytes.antt =====
-- Bytes and little-endian words. A byte is a number below 256.
use Prim.Native.Nat.{ℕ, zero, suc, ◌+◌, ◌*◌, ◌/◌, ◌%◌, ◌<◌}
use Prim.Native.Char.{code}
use Prim.Native.String.{String}
use mathlib.Core.Path.{◌≡◌, refl, ap, ap₂, ◌∙◌}
use mathlib.Core.List.{List, [], ◌∷◌}
use native.Mathlib.Omega.{arith}
use mathlib.Core.Logic.{◌≢◌}
use mathlib.Core.Bool.{Bool, true, false}
use axiom_vm.Prelude.Tests.{if◌then◌else◌, ◌==◌}
use axiom_vm.Prelude.Lists.{length, All}

abbrev pub IsByte : ℕ → Type 0
IsByte b = b < 256

-- The `w` bytes of `v` in memory, lowest first.
abbrev pub le_bytes : ℕ → ℕ → List ℕ
le_bytes zero v = []
le_bytes (suc w) v = (v % 256) ∷ le_bytes w (v / 256)

-- The number that a run of bytes holds.
abbrev pub le_value : List ℕ → ℕ
le_value [] = 0
le_value (b ∷ bs) = b + 256 * le_value bs

-- 256 ^ w, by recursion on the width.
abbrev pub range_of : ℕ → ℕ
range_of zero = 1
range_of (suc w) = 256 * range_of w

pub length-le_bytes : (w v : ℕ) → length (le_bytes w v) ≡ w
length-le_bytes zero v = refl
length-le_bytes (suc w) v = ap suc (length-le_bytes w (v / 256))

pub le_bytes-IsByte : (w v : ℕ) → All IsByte (le_bytes w v)
le_bytes-IsByte zero v = tt
le_bytes-IsByte (suc w) v = (omega arith, le_bytes-IsByte w (v / 256))

pub le_value-le_bytes : (w v : ℕ) → v < range_of w → le_value (le_bytes w v) ≡ v
le_value-le_bytes zero v h = omega arith
le_value-le_bytes (suc w) v h = omega (arith, le_value-le_bytes w (v / 256) (omega arith))

pub le_bytes-le_value : (bs : List ℕ) → All IsByte bs → le_bytes (length bs) (le_value bs) ≡ bs
le_bytes-le_value [] h = refl
le_bytes-le_value (b ∷ bs) (hb, hs) =
    ap₂ ◌∷◌ low (ap (le_bytes (length bs)) high ∙ le_bytes-le_value bs hs)
  where
    low : (b + 256 * le_value bs) % 256 ≡ b
    low = omega arith

    high : (b + 256 * le_value bs) / 256 ≡ le_value bs
    high = omega arith

pub le_value-lt : (bs : List ℕ) → All IsByte bs → le_value bs < range_of (length bs)
le_value-lt [] h = omega arith
le_value-lt (b ∷ bs) (hb, hs) = omega (arith, le_value-lt bs hs)

-- The codes of a literal, which are its bytes since the text is ASCII.
abbrev pub codes : String → List ℕ
codes String.[] = []
codes (String.◌∷◌ c s) = code c ∷ codes s

-- `==` of two string views
unfoldable pub same_text : List ℕ → List ℕ → Bool
same_text [] [] = true
same_text [] (c ∷ cs) = false
same_text (b ∷ bs) [] = false
same_text (b ∷ bs) (c ∷ cs) = let rest = same_text bs cs in if b == c then rest else false

pub same_text→eq : (bs cs : List ℕ) → same_text bs cs ≡ true → bs ≡ cs
unfolding same_text
same_text→eq [] [] h = refl
same_text→eq [] (c ∷ cs) h = cc
same_text→eq (b ∷ bs) [] h = cc
same_text→eq (b ∷ bs) (c ∷ cs) h = ground (arith, same_text→eq bs cs)

pub same_text_self : (bs : List ℕ) → same_text bs bs ≡ true
unfolding same_text
same_text_self [] = refl
same_text_self (b ∷ bs) = ground (arith, same_text_self bs)

pub same_text→ne : (bs cs : List ℕ) → same_text bs cs ≡ false → bs ≢ cs
same_text→ne bs cs h e = cc (same_text_self cs, ap (λ t. same_text t cs) e)
