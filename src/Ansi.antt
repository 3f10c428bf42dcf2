-- ===== src/Ansi.antt =====
-- include/axiom/ansi.hpp: the state machine that strips ANSI escape sequences.
pub mod Emit
pub mod Output
pub mod Piece
pub mod Document
use axiom_vm.Prelude.{
  ℕ, ◌+◌, Bool, true, false, ◌&&◌, ◌||◌, List, [], ◌∷◌, if◌then◌else◌, ltb, leb, ◌==◌, length, set,
  not,
}

-- `enum class State`
pub data State : Type 0 where
  ground escape csi_param csi_interm osc osc_esc esc_interm : State

-- The output span and `out_idx`.
pub record Sink : Type 0 where
  pub out : List ℕ
  pub out_idx : ℕ

unfoldable pub put : ℕ → Sink → Sink
put b s =
    if ltb s.out_idx (length s.out)
    then record { out = set s.out s.out_idx b; out_idx = s.out_idx + 1 }
    else s

abbrev pub in_range : ℕ → ℕ → ℕ → Bool
in_range lo hi b = leb lo b && leb b hi

-- `process_byte`, with the state first.
unfoldable pub process_byte : State → ℕ → Sink → State × Sink
process_byte ground b s =
    if b == 0x1B
    then (escape, s)
    else if b == 0x0D
    then (ground, s)
    else if b == 0x0A || (b == 0x09 || leb 0x20 b)
    then (ground, put b s)
    else (ground, s)
process_byte escape b s =
    if b == b'['
    then (csi_param, s)
    else if b == b']'
    then (osc, s)
    else if in_range 0x20 0x2F b
    then (esc_interm, s)
    else (ground, s)
process_byte csi_param b s =
    if in_range 0x30 0x3F b
    then (csi_param, s)
    else if in_range 0x20 0x2F b
    then (csi_interm, s)
    else if in_range 0x40 0x7E b
    then (ground, s)
    else if b == 0x1B
    then (escape, s)
    else (ground, s)
process_byte csi_interm b s =
    if in_range 0x20 0x2F b
    then (csi_interm, s)
    else if in_range 0x40 0x7E b
    then (ground, s)
    else if b == 0x1B
    then (escape, s)
    else (ground, s)
process_byte osc b s =
    if b == 0x07 then (ground, s) else if b == 0x1B then (osc_esc, s) else (osc, s)
process_byte osc_esc b s =
    if b == b'\\'
    then (ground, s)
    else if b == b'['
    then (csi_param, s)
    else if not (b == 0x1B)
    then (escape, s)
    else (osc_esc, s)
process_byte esc_interm b s = (ground, s)

-- the loop of `filter` over the input
unfoldable pub process_all : State → List ℕ → Sink → State × Sink
process_all state [] s = (state, s)
process_all state (b ∷ bs) s = let (state', s') = process_byte state b s in process_all state' bs s'

-- `filter`: the state afterwards, the output span, and the number of bytes in it.
unfoldable pub filter : State → List ℕ → List ℕ → State × Sink
unfolding process_all process_byte put
filter state input output = process_all state input (record { out = output; out_idx = 0 })

-- `strip_ansi`, which starts a filter of its own.
unfoldable pub strip_ansi : List ℕ → List ℕ → Sink
unfolding filter
strip_ansi input dest = (filter ground input dest).1
