-- ===== src/Ansi/Emit.antt =====
-- The filter with an unbounded output: the state steps, and what a byte emits, by themselves.
use axiom_vm.Prelude.{
  ℕ, zero, suc, ◌+◌, ◌≤◌, ◌<◌, min, ◌≡◌, ◌⊎◌, refl, ap, ap₂, sym, ◌∙◌, Bool, ◌||◌, List, [], ◌∷◌,
  ◌++◌, if◌then◌else◌, leb, ◌==◌, arith, length, set, take, drop, take-set_next, drop-set,
  length-set, append_assoc, take-append-drop, lt→ltb, le→ltb,
}
use axiom_vm.Ansi.{State, Sink, put, process_byte, process_all, filter}

-- A byte that a terminal shows: a line feed, a tab, or any from the space on.
abbrev pub IsText : ℕ → Type 0
IsText b = (b ≡ 0x0A) ⊎ ((b ≡ 0x09) ⊎ (0x20 ≤ b))

-- The test of the ground state for such a byte.
abbrev pub is_text : ℕ → Bool
is_text b = b == 0x0A || (b == 0x09 || leb 0x20 b)

-- The state after a byte, and the bytes that it emits. The sink plays no part in either.
abbrev nowhere : Sink
nowhere = record { out = []; out_idx = 0 }

unfoldable pub next : State → ℕ → State
unfolding process_byte
next state b = (process_byte state b nowhere).0

unfoldable pub emits : State → ℕ → List ℕ
emits State.ground b = if is_text b then b ∷ [] else []
emits _ b = []

unfoldable pub after : State → List ℕ → State
unfolding next
after state [] = state
after state (b ∷ bs) = after (next state b) bs

unfoldable pub emitted : State → List ℕ → List ℕ
unfolding next emits
emitted state [] = []
emitted state (b ∷ bs) = emits state b ++ emitted (next state b) bs

-- Writing bytes one by one through `put`.
put_all : List ℕ → Sink → Sink
put_all [] s = s
put_all (b ∷ bs) s = put_all bs (put b s)

process_byte-emits :
    (state : State) (b : ℕ) (s : Sink)
    → process_byte state b s ≡ (next state b, put_all (emits state b) s)
unfolding next emits process_byte put_all
process_byte-emits State.ground b s = ground arith
process_byte-emits _ b s = ground arith

put_all-append : (xs ys : List ℕ) (s : Sink) → put_all (xs ++ ys) s ≡ put_all ys (put_all xs s)
unfolding put_all
put_all-append [] ys s = refl
put_all-append (x ∷ xs) ys s = put_all-append xs ys (put x s)

process_all-emitted :
    (bs : List ℕ) (state : State) (s : Sink)
    → process_all state bs s ≡ (after state bs, put_all (emitted state bs) s)
unfolding process_all after emitted put_all
process_all-emitted [] state s = refl
process_all-emitted (b ∷ bs) state s =
    ap (λ (r : State × Sink). process_all r.0 bs r.1) (process_byte-emits state b s)
    ∙ process_all-emitted bs (next state b) (put_all (emits state b) s)
    ∙ ap (λ t. (after (next state b) bs, t))
        (sym (put_all-append (emits state b) (emitted (next state b) bs) s))

put-room :
    (out : List ℕ) (i b : ℕ)
    → i < length out
    → put b (record { out = out; out_idx = i }) ≡ record { out = set out i b; out_idx = i + 1 }
unfolding put
put-room out i b h = rw (lt→ltb i (length out) h)

put-full :
    (out : List ℕ) (i b : ℕ)
    → length out ≤ i
    → put b (record { out = out; out_idx = i }) ≡ record { out = out; out_idx = i }
unfolding put
put-full out i b h = rw (le→ltb i (length out) h)

-- The sink that holds `n` more bytes, which stand from the place `i` on.
abbrev sink_with : List ℕ → ℕ → List ℕ → ℕ → Sink
sink_with out i bs n = record { out = take i out ++ (bs ++ drop (i + n) out); out_idx = i + n }

sink_with-nil :
    (out : List ℕ) (i n : ℕ) → n ≡ 0 → record { out = out; out_idx = i } ≡ sink_with out i [] n
sink_with-nil out i n e =
    let k : i ≡ i + n = omega arith in
    ap (λ xs. record { out = xs; out_idx = i }) (sym (take-append-drop i out))
    ∙ ap (λ j. record { out = take i out ++ drop j out; out_idx = j }) k

-- The bytes go to the places from `out_idx` on, until the span is full.
put_all_lem :
    (bs out : List ℕ) (i room : ℕ)
    → i + room ≡ length out
    → put_all bs (record { out = out; out_idx = i })
      ≡ sink_with out i (take room bs) (min (length bs) room)
unfolding put_all
put_all_lem [] out i zero h = sink_with-nil out i _ (omega arith)
put_all_lem [] out i (suc room) h = sink_with-nil out i _ (omega arith)
put_all_lem (b ∷ bs) out i zero h =
    ap (put_all bs) (put-full out i b (omega arith))
    ∙ put_all_lem bs out i zero h
    ∙ ap (sink_with out i []) (omega arith)
put_all_lem (b ∷ bs) out i (suc room) h =
    ap (put_all bs) (put-room out i b (omega arith))
    ∙ put_all_lem bs (set out i b) (i + 1) room (omega (arith, length-set out i b))
    ∙ ap₂
        (λ front back. record {
          out = front ++ (take room bs ++ back);
          out_idx = i + 1 + min (length bs) room;
        })
        (take-set_next out i b (omega arith)) (drop-set _ out i b (omega arith))
    ∙ ap (λ xs. record { out = xs; out_idx = i + 1 + min (length bs) room })
        (append_assoc (take i out) (b ∷ [])
          (take room bs ++ drop (i + 1 + min (length bs) room) out))
    ∙ ap (λ k. record { out = take i out ++ (b ∷ (take room bs ++ drop k out)); out_idx = k })
        one_more
  where
    one_more : i + 1 + min (length bs) room ≡ i + min (suc (length bs)) (suc room)
    one_more = omega arith

-- The filter step by step and the filter with an unbounded output agree: `filter` ends in the state
-- after all its input, and puts as many of the emitted bytes as fit at the front of the output.
pub filter-emitted :
    (state : State) (input output : List ℕ)
    → let e = emitted state input in
      let n = min (length e) (length output) in
      filter state input output
      ≡ (after state input, record { out = take (length output) e ++ drop n output; out_idx = n })
unfolding filter
filter-emitted state input output =
    process_all-emitted input state (record { out = output; out_idx = 0 })
    ∙ ap (λ t. (after state input, t))
        (put_all_lem (emitted state input) output 0 (length output) (omega arith)
          ∙ ap
              (λ k. record {
                out = take (length output) (emitted state input) ++ drop k output;
                out_idx = k;
              })
              (omega arith))

-- Feeding the input in two parts is feeding it at once.
pub emitted-append :
    (xs ys : List ℕ) (state : State)
    → (emitted state (xs ++ ys) ≡ emitted state xs ++ emitted (after state xs) ys)
      × (after state (xs ++ ys) ≡ after (after state xs) ys)
unfolding emitted after
emitted-append [] ys state = (refl, refl)
emitted-append (x ∷ xs) ys state = (
  ap (λ t. emits state x ++ t) (emitted-append xs ys (next state x)).0
      ∙ sym (append_assoc (emits state x) (emitted (next state x) xs) _),
  (emitted-append xs ys (next state x)).1,
)
