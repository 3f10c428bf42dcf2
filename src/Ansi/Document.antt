-- ===== src/Ansi/Document.antt =====
-- What the filter makes of a text of the pieces of Piece.antt.
use axiom_vm.Prelude.{
  ℕ, ◌<◌, ◌≢◌, ◌≡◌, refl, ap, ap₂, ◌∙◌, ◌⊎◌, List, [], ◌∷◌, ◌++◌, arith, length, take, drop, All,
  min,
}
use axiom_vm.Ansi.{State, filter}
use axiom_vm.Ansi.Emit.{IsText, next, emits, after, emitted, emitted-append, filter-emitted}
use axiom_vm.Ansi.Piece.{
  Between, Piece, text, control, csi, osc_bel, osc_st, esc, esc_with, IsWellFormed, render, visible,
  render_all, visible_all,
}

-- From a state, bytes lead to a state and emit bytes.
record Runs (s : State) (bs : List ℕ) (out : List ℕ) (t : State) : Type 0 where
  out_eq : emitted s bs ≡ out
  state_eq : after s bs ≡ t

Runs-append :
    {s t u : State} (xs ys : List ℕ) {a b : List ℕ}
    → Runs s xs a t
    → Runs t ys b u
    → Runs s (xs ++ ys) (a ++ b) u
Runs-append {s} {t} xs ys {a} {b} p q = record {
  out_eq =
      (emitted-append xs ys s).0 ∙ ap₂ ◌++◌ p.out_eq (ap (λ w. emitted w ys) p.state_eq ∙ q.out_eq);
  state_eq = (emitted-append xs ys s).1 ∙ ap (λ w. after w ys) p.state_eq ∙ q.state_eq;
}

-- A byte that leads from a silent state to another.
Runs-byte : (s : State) (b : ℕ) (t : State) → emits s b ≡ [] → next s b ≡ t → Runs s (b ∷ []) [] t
unfolding emitted after
Runs-byte s b t e n = record { out_eq = rw e; state_eq = n }

-- Bytes that a state stays in.
Runs-stay :
    (s : State) (bs : List ℕ) → All (λ b. (emits s b ≡ []) × (next s b ≡ s)) bs → Runs s bs [] s
unfolding emitted after
Runs-stay s [] h = record { out_eq = refl; state_eq = refl }
Runs-stay s (b ∷ bs) h = Runs-append (b ∷ []) bs (Runs-byte s b s h.0.0 h.0.1) (Runs-stay s bs h.1)

All-map : {P Q : ℕ → Type 0} (f : (b : ℕ) → P b → Q b) (bs : List ℕ) → All P bs → All Q bs
All-map f [] h = tt
All-map f (b ∷ bs) h = (f b h.0, All-map f bs h.1)

text_byte :
    (b : ℕ) → IsText b → (emits State.ground b ≡ b ∷ []) × (next State.ground b ≡ State.ground)
unfolding emits next
text_byte b h = ground arith

Runs-text : (bs : List ℕ) → All IsText bs → Runs State.ground bs bs State.ground
unfolding emitted after
Runs-text [] h = record { out_eq = refl; state_eq = refl }
Runs-text (b ∷ bs) h = Runs-append (b ∷ []) bs shown (Runs-text bs h.1)
  where
    shown : Runs State.ground (b ∷ []) (b ∷ []) State.ground
    shown = record { out_eq = rw (text_byte b h.0).0; state_eq = (text_byte b h.0).1 }

-- A byte that emits nothing, and leads from one state to another.
abbrev Silent : State → ℕ → State → Type 0
Silent s b t = (emits s b ≡ []) × (next s b ≡ t)

Runs-Silent : {s t : State} {b : ℕ} → Silent s b t → Runs s (b ∷ []) [] t
Runs-Silent {s} {t} {b} h = Runs-byte s b t h.0 h.1

to_escape : Silent State.ground 0x1B State.escape
unfolding emits next
to_escape = (refl, refl)

in_param : (b : ℕ) → Between 0x30 0x3F b → Silent State.csi_param b State.csi_param
unfolding emits next
in_param b h = ground arith

to_interm : (b : ℕ) → Between 0x20 0x2F b → Silent State.csi_param b State.csi_interm
unfolding emits next
to_interm b h = ground arith

in_interm : (b : ℕ) → Between 0x20 0x2F b → Silent State.csi_interm b State.csi_interm
unfolding emits next
in_interm b h = ground arith

param_end : (b : ℕ) → Between 0x40 0x7E b → Silent State.csi_param b State.ground
unfolding emits next
param_end b h = ground arith

interm_end : (b : ℕ) → Between 0x40 0x7E b → Silent State.csi_interm b State.ground
unfolding emits next
interm_end b h = ground arith

in_osc : (b : ℕ) → (b ≢ 0x07) × (b ≢ 0x1B) → Silent State.osc b State.osc
unfolding emits next
in_osc b h = ground arith

dropped :
    (b : ℕ) → (b < 0x20) × (b ≢ 0x1B) × (b ≢ 0x0A) × (b ≢ 0x09) → Silent State.ground b State.ground
unfolding emits next
dropped b h = ground arith

esc_end :
    (b : ℕ)
    → (b ≢ b'[') × (b ≢ b']') × ((b < 0x20) ⊎ (0x2F < b))
    → Silent State.escape b State.ground
unfolding emits next
esc_end b h = ground arith

esc_interm_start : (b : ℕ) → Between 0x20 0x2F b → Silent State.escape b State.esc_interm
unfolding emits next
esc_interm_start b h = ground arith

-- The rest of a control sequence behind its parameters.
Runs-csi_end :
    (is : List ℕ) (f : ℕ)
    → All (Between 0x20 0x2F) is
    → Between 0x40 0x7E f
    → Runs State.csi_param (is ++ (f ∷ [])) [] State.ground
Runs-csi_end [] f his hf = Runs-Silent (param_end f hf)
Runs-csi_end (i ∷ is) f his hf =
    Runs-append (i ∷ []) (is ++ (f ∷ [])) (Runs-Silent (to_interm i his.0)) (
      Runs-append is (f ∷ []) (Runs-stay State.csi_interm is (All-map in_interm is his.1))
        (Runs-Silent (interm_end f hf)))

-- ESC and the byte behind it that opens a sequence.
Runs-opened :
    (b : ℕ) (bs : List ℕ) (t : State)
    → Silent State.escape b t
    → Runs t bs [] State.ground
    → Runs State.ground (0x1B ∷ b ∷ bs) [] State.ground
Runs-opened b bs t s r =
    Runs-append (0x1B ∷ []) (b ∷ bs) (Runs-Silent to_escape)
      (Runs-append (b ∷ []) bs (Runs-Silent s) r)

Runs-piece : (p : Piece) → IsWellFormed p → Runs State.ground (render p) (visible p) State.ground
unfolding emits next
Runs-piece (text bs) h = Runs-text bs h
Runs-piece (control c) h = Runs-Silent (dropped c h)
Runs-piece (csi ps is f) h =
    Runs-opened b'[' (ps ++ (is ++ (f ∷ []))) State.csi_param (refl, refl)
      (Runs-append ps (is ++ (f ∷ [])) (Runs-stay State.csi_param ps (All-map in_param ps h.0))
        (Runs-csi_end is f h.1 h.2))
Runs-piece (osc_bel body) h =
    Runs-opened b']' (body ++ (0x07 ∷ [])) State.osc (refl, refl)
      (Runs-append body (0x07 ∷ []) (Runs-stay State.osc body (All-map in_osc body h))
        (Runs-Silent (refl, refl)))
Runs-piece (osc_st body) h =
    Runs-opened b']' (body ++ (0x1B ∷ b'\\' ∷ [])) State.osc (refl, refl)
      (Runs-append body (0x1B ∷ b'\\' ∷ []) (Runs-stay State.osc body (All-map in_osc body h)) (
        Runs-append (0x1B ∷ []) (b'\\' ∷ [])
          (Runs-Silent {s = State.osc} {t = State.osc_esc} (refl, refl))
          (Runs-Silent (refl, refl))))
Runs-piece (esc f) h =
    Runs-append (0x1B ∷ []) (f ∷ []) (Runs-Silent to_escape) (Runs-Silent (esc_end f h))
Runs-piece (esc_with i f) h =
    Runs-opened i (f ∷ []) State.esc_interm (esc_interm_start i h) (Runs-Silent (refl, refl))

Runs-All :
    (ps : List Piece)
    → All IsWellFormed ps
    → Runs State.ground (render_all ps) (visible_all ps) State.ground
unfolding emitted after
Runs-All [] h = record { out_eq = refl; state_eq = refl }
Runs-All (p ∷ ps) h = Runs-append (render p) (render_all ps) (Runs-piece p h.0) (Runs-All ps h.1)

-- From the ground state `filter` turns any sequence of text runs, control characters other than ESC,
-- control sequences (ESC [), operating-system commands (ESC ] up to BEL or ESC \) and escape
-- sequences of ESC and a final byte, with one intermediate byte between them or none, into exactly
-- the text of the runs, cut to the room of the output, and is back in the ground state; the rest of
-- the output span is left alone. Sequences with two intermediate bytes are not among them.
pub filter-render :
    (ps : List Piece) (output : List ℕ)
    → All IsWellFormed ps
    → let shown = visible_all ps in
      let n = min (length shown) (length output) in
      filter State.ground (render_all ps) output
      ≡ (State.ground, record { out = take (length output) shown ++ drop n output; out_idx = n })
filter-render ps output h =
    filter-emitted State.ground (render_all ps) output
    ∙ ap₂
        (λ state shown. (
          state,
          record {
            out = take (length output) shown ++ drop (min (length shown) (length output)) output;
            out_idx = min (length shown) (length output);
          },
        ))
        (Runs-All ps h).state_eq (Runs-All ps h).out_eq
