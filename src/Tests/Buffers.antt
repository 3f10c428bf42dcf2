-- ===== src/Tests/Buffers.antt =====
-- The containers and the ANSI filter on concrete inputs.
use axiom_vm.Prelude.{ℕ, ◌+◌, ◌≡◌, refl, List, [], ◌∷◌, ◌++◌, arith, length, ltb, inr}
use axiom_vm.FixedVector.{FixedVector, as_span}
use axiom_vm.FixedVector.Refine.{push, pop, reset, run, run_list, run_refines}
use axiom_vm.FixedVector.Refine
use axiom_vm.RingBuffer.{
  RingBuffer, empty, push_all, write, clear, linearize, is_truncated, dropped_bytes,
}
use axiom_vm.RingBuffer.Invariant.{empty-IsValid}
use axiom_vm.RingBuffer.Invariant
use axiom_vm.RingBuffer.Contents.{contents, last, push_all-contents}
use axiom_vm.RingBuffer.Laws.{captured, write-linearize, dropped_bytes_lem}
use axiom_vm.Ansi.{State, filter}
use axiom_vm.Ansi.Output.{Output, shown, filter-Output, filter-append}
use axiom_vm.Ansi.Piece.{Piece, text, control, csi, osc_st, render_all}
use axiom_vm.Ansi.Document.{filter-render}

abbrev letters : List ℕ
letters = b'a' ∷ b'b' ∷ b'c' ∷ b'd' ∷ b'e' ∷ []

abbrev ring : RingBuffer
ring = empty 3

ring-IsValid : Invariant.IsValid 3 ring
ring-IsValid = empty-IsValid 3 (omega arith) (omega arith)

keeps_last :
    linearize 3 (captured 3 ring letters) (0 ∷ 0 ∷ 0 ∷ 0 ∷ []) ≡ (3, b'c' ∷ b'd' ∷ b'e' ∷ 0 ∷ [])
unfolding linearize write empty clear
keeps_last = refl

write-linearize_example :
    linearize 3 (captured 3 ring letters) (0 ∷ 0 ∷ 0 ∷ 0 ∷ []) ≡ (3, b'c' ∷ b'd' ∷ b'e' ∷ 0 ∷ [])
write-linearize_example =
    write-linearize 3 ring letters (0 ∷ 0 ∷ 0 ∷ 0 ∷ []) ring-IsValid (omega arith)

push_all-contents_example :
    contents 3 (push_all 3 ring letters) ≡ last 3 (contents 3 ring ++ letters)
push_all-contents_example = push_all-contents 3 letters ring ring-IsValid

dropped_bytes_lem_example :
    (dropped_bytes 3 (captured 3 ring letters) + length (contents 3 (captured 3 ring letters)) ≡ 5)
    × (is_truncated 3 (captured 3 ring letters) ≡ ltb 0 (dropped_bytes 3 (captured 3 ring letters)))
dropped_bytes_lem_example = dropped_bytes_lem 3 ring letters (omega arith) ring-IsValid

abbrev pair : FixedVector ℕ
pair = record { slots = 4 ∷ 0 ∷ []; size = 1 }

run_refines_example :
    let (v, answers) = run 2 pair (push 5 ∷ push 6 ∷ pop ∷ reset ∷ []) in
    ((as_span v, answers) ≡ run_list 2 (as_span pair) (push 5 ∷ push 6 ∷ pop ∷ reset ∷ []))
    × Refine.IsValid 2 v
run_refines_example =
    run_refines 2 (push 5 ∷ push 6 ∷ pop ∷ reset ∷ []) pair
      (record { storage = refl; within = omega arith })

-- "a", a red colour sequence, "b", a carriage return and a window title.
abbrev pieces : List Piece
pieces =
    text (b'a' ∷ [])
    ∷ csi (b'3' ∷ b'1' ∷ []) [] b'm'
    ∷ text (b'b' ∷ [])
    ∷ control 0x0D
    ∷ osc_st (b'0' ∷ [])
    ∷ []

strips :
    filter State.ground (render_all pieces) (0 ∷ 0 ∷ 0 ∷ [])
    ≡ (State.ground, record { out = b'a' ∷ b'b' ∷ 0 ∷ []; out_idx = 2 })
unfolding filter
strips = refl

filter-render_example :
    filter State.ground (render_all pieces) (0 ∷ 0 ∷ 0 ∷ [])
    ≡ (State.ground, record { out = b'a' ∷ b'b' ∷ 0 ∷ []; out_idx = 2 })
filter-render_example = filter-render pieces (0 ∷ 0 ∷ 0 ∷ []) (
  (inr (inr (omega arith)), tt),
  (
    (
      ((omega arith, omega arith), ((omega arith, omega arith), tt)),
      tt,
      (omega arith, omega arith),
    ),
    (
      (inr (inr (omega arith)), tt),
      (
        (omega arith, omega arith, omega arith, omega arith),
        (((omega arith, omega arith), tt), tt),
      ),
    ),
  ),
)

filter-Output_example :
    Output (render_all pieces) (0 ∷ []) (filter State.csi_param (render_all pieces) (0 ∷ [])).1
filter-Output_example = filter-Output State.csi_param (render_all pieces) (0 ∷ [])

filter-append_example :
    let (state_x, s_x) = filter State.ground (0x1B ∷ b'[' ∷ []) (0 ∷ 0 ∷ []) in
    let (state_y, s_y) = filter state_x (b'm' ∷ b'a' ∷ []) (0 ∷ 0 ∷ []) in
    let (state', s) = filter State.ground (0x1B ∷ b'[' ∷ b'm' ∷ b'a' ∷ []) (0 ∷ 0 ∷ 0 ∷ 0 ∷ []) in
    (state' ≡ state_y) × (shown s ≡ shown s_x ++ shown s_y)
filter-append_example =
    filter-append State.ground (0x1B ∷ b'[' ∷ []) (b'm' ∷ b'a' ∷ []) (0 ∷ 0 ∷ []) (0 ∷ 0 ∷ [])
      (0 ∷ 0 ∷ 0 ∷ 0 ∷ []) (omega arith) (omega arith) (omega arith)
