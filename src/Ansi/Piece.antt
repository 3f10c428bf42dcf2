-- ===== src/Ansi/Piece.antt =====
-- The pieces of a terminal text that the filter of include/axiom/ansi.hpp takes apart: runs of text,
-- control characters, and escape sequences with at most one intermediate byte behind ESC.
use axiom_vm.Prelude.{ℕ, ◌≤◌, ◌<◌, ◌≢◌, ◌⊎◌, List, [], ◌∷◌, ◌++◌, All}
use axiom_vm.Ansi.Emit.{IsText}

abbrev pub Between : ℕ → ℕ → ℕ → Type 0
Between lo hi b = (lo ≤ b) × (b ≤ hi)

pub data Piece : Type 0 where
  text : List ℕ → Piece
  -- any other control character but ESC
  control : ℕ → Piece
  -- ESC [ parameters intermediates final
  csi : List ℕ → List ℕ → ℕ → Piece
  -- ESC ] body BEL, and ESC ] body ESC \
  osc_bel : List ℕ → Piece
  osc_st : List ℕ → Piece
  -- ESC final, and ESC intermediate final
  esc : ℕ → Piece
  esc_with : ℕ → ℕ → Piece

abbrev pub IsWellFormed : Piece → Type 0
IsWellFormed (text bs) = All IsText bs
IsWellFormed (control c) = (c < 0x20) × (c ≢ 0x1B) × (c ≢ 0x0A) × (c ≢ 0x09)
IsWellFormed (csi ps is f) =
    All (Between 0x30 0x3F) ps × All (Between 0x20 0x2F) is × Between 0x40 0x7E f
IsWellFormed (osc_bel body) = All (λ b. (b ≢ 0x07) × (b ≢ 0x1B)) body
IsWellFormed (osc_st body) = All (λ b. (b ≢ 0x07) × (b ≢ 0x1B)) body
IsWellFormed (esc f) = (f ≢ b'[') × (f ≢ b']') × ((f < 0x20) ⊎ (0x2F < f))
IsWellFormed (esc_with i f) = Between 0x20 0x2F i

abbrev pub render : Piece → List ℕ
render (text bs) = bs
render (control c) = c ∷ []
render (csi ps is f) = 0x1B ∷ b'[' ∷ (ps ++ (is ++ (f ∷ [])))
render (osc_bel body) = 0x1B ∷ b']' ∷ (body ++ (0x07 ∷ []))
render (osc_st body) = 0x1B ∷ b']' ∷ (body ++ (0x1B ∷ b'\\' ∷ []))
render (esc f) = 0x1B ∷ f ∷ []
render (esc_with i f) = 0x1B ∷ i ∷ f ∷ []

abbrev pub visible : Piece → List ℕ
visible (text bs) = bs
visible _ = []

abbrev pub render_all : List Piece → List ℕ
render_all [] = []
render_all (p ∷ ps) = render p ++ render_all ps

abbrev pub visible_all : List Piece → List ℕ
visible_all [] = []
visible_all (p ∷ ps) = visible p ++ visible_all ps
