-- ===== src/Ansi/Output.antt =====
-- What holds of the filter's output whatever the input is.
use axiom_vm.Prelude.{
  ℕ, zero, suc, ◌+◌, ◌≤◌, ◌≡◌, refl, ap, ap₂, sym, ◌∙◌, subst, ◌⊎◌, inl, inr, List, [], ◌∷◌, ◌++◌,
  arith, length, take, drop, All, min, All-append, length-append, length-take, length-drop,
  take-length-append, take-all, drop-length-append, All-take,
}
use axiom_vm.Ansi.{State, Sink, filter}
use axiom_vm.Ansi.Emit.{IsText, next, emits, after, emitted, filter-emitted, emitted-append}

-- The first list is the second with some elements left out.
pub data IsSubsequence {ℓ} {A : Type ℓ} : List A → List A → Type ℓ where
  done : {ys : List A} → IsSubsequence [] ys
  skip : {xs ys : List A} (y : A) → IsSubsequence xs ys → IsSubsequence xs (y ∷ ys)
  keep : {xs ys : List A} (y : A) → IsSubsequence xs ys → IsSubsequence (y ∷ xs) (y ∷ ys)

take-IsSubsequence {ℓ} :
    {A : Type ℓ} {xs ys : List A} → IsSubsequence xs ys → (n : ℕ) → IsSubsequence (take n xs) ys
take-IsSubsequence done zero = done
take-IsSubsequence done (suc n) = done
take-IsSubsequence (skip y s) n = skip y (take-IsSubsequence s n)
take-IsSubsequence (keep y s) zero = done
take-IsSubsequence (keep y s) (suc n) = keep y (take-IsSubsequence s n)

-- A byte emits nothing or, being text, itself.
emits_cases : (state : State) (b : ℕ) → (emits state b ≡ []) ⊎ ((emits state b ≡ b ∷ []) × IsText b)
unfolding emits
emits_cases State.ground b = ground arith
emits_cases _ b = inl refl

emits-IsText : (state : State) (b : ℕ) → All IsText (emits state b)
emits-IsText state b = elim (emits_cases state b) [ inl e ↦ rw e tt | inr (e, h) ↦ rw e (h, tt) ]

emitted-IsText : (bs : List ℕ) (state : State) → All IsText (emitted state bs)
unfolding emitted
emitted-IsText [] state = tt
emitted-IsText (b ∷ bs) state =
    All-append IsText (emits state b) _ (emits-IsText state b) (emitted-IsText bs (next state b))

emits-IsSubsequence :
    (state : State) (b : ℕ) (xs bs : List ℕ)
    → IsSubsequence xs bs
    → IsSubsequence (emits state b ++ xs) (b ∷ bs)
emits-IsSubsequence state b xs bs s = elim (emits_cases state b) [
  | inl e ↦ rw e (skip b s)
  | inr (e, _) ↦ rw e (keep b s)
]

emitted-IsSubsequence : (bs : List ℕ) (state : State) → IsSubsequence (emitted state bs) bs
unfolding emitted
emitted-IsSubsequence [] state = done
emitted-IsSubsequence (b ∷ bs) state =
    emits-IsSubsequence state b _ bs (emitted-IsSubsequence bs (next state b))

-- The filter's output, as its caller reads it: `out_idx` bytes at the front of the span.
abbrev pub shown : Sink → List ℕ
shown s = take s.out_idx s.out

-- What a run of the filter may do to its output span.
pub record Output (input output : List ℕ) (s : Sink) : Type 0 where
  pub bounded : s.out_idx ≤ length output
  pub same_span : length s.out ≡ length output
  pub untouched : drop s.out_idx s.out ≡ drop s.out_idx output
  pub text_only : All IsText (shown s)
  pub from_input : IsSubsequence (shown s) input

sink_of : List ℕ → List ℕ → Sink
sink_of e output =
    let n = min (length e) (length output) in
    record { out = take (length output) e ++ drop n output; out_idx = n }

sink_of-Output :
    (e input output : List ℕ)
    → All IsText e
    → IsSubsequence e input
    → Output input output (sink_of e output)
unfolding sink_of
sink_of-Output e input output texts sub = record {
  bounded = omega arith;
  same_span =
      omega (arith, length-append front (drop n output), length-drop n output, front_length);
  untouched = drop-length-append n front (drop n output) front_length;
  text_only = rw shown_front (All-take IsText (length output) e texts);
  from_input = rw shown_front (take-IsSubsequence sub (length output));
}
  where
    n : ℕ
    n = min (length e) (length output)

    front : List ℕ
    front = take (length output) e

    front_length : length front ≡ n
    front_length = omega (arith, length-take (length output) e)

    shown_front : take n (front ++ drop n output) ≡ front
    shown_front = take-length-append n front (drop n output) front_length

-- From any state and on any input, `filter` writes no byte past the output span or past the count
-- it returns, keeps only text bytes (never ESC, a carriage return or another control character),
-- and keeps them in the order of the input.
pub filter-Output :
    (state : State) (input output : List ℕ) → Output input output (filter state input output).1
unfolding sink_of
filter-Output state input output =
    subst (Output input output)
      (sym (ap (λ (r : State × Sink). r.1) (filter-emitted state input output)))
      (sink_of-Output (emitted state input) input output (emitted-IsText input state)
        (emitted-IsSubsequence input state))

pub length-emitted : (bs : List ℕ) (state : State) → length (emitted state bs) ≤ length bs
unfolding emitted
length-emitted [] state = omega arith
length-emitted (b ∷ bs) state = elim (emits_cases state b) [
  | inl e ↦ rw e (omega (arith, length-emitted bs (next state b)))
  | inr (e, _) ↦ rw e (omega (arith, length-emitted bs (next state b)))
]

-- With room for the whole input nothing is cut off.
filter-room :
    (state : State) (input output : List ℕ)
    → length input ≤ length output
    → let (state', s) = filter state input output in
      (state' ≡ after state input) × (shown s ≡ emitted state input)
filter-room state input output room = (
  ap (λ (r : State × Sink). r.0) (filter-emitted state input output),
  ap (λ (r : State × Sink). shown r.1) (filter-emitted state input output)
      ∙ take-length-append _ (take (length output) e) _
          (omega (arith, length-take (length output) e))
      ∙ take-all (length output) e (omega (arith, length-emitted input state)),
)
  where
    e : List ℕ
    e = emitted state input

-- Filtering in two calls is filtering the whole in one: with outputs that have room for their
-- inputs, the final states are the same and the two outputs together are the one of the whole.
pub filter-append :
    (state : State) (xs ys out_x out_y out : List ℕ)
    → length xs ≤ length out_x
    → length ys ≤ length out_y
    → length xs + length ys ≤ length out
    → let (state_x, s_x) = filter state xs out_x in
      let (state_y, s_y) = filter state_x ys out_y in
      let (state', s) = filter state (xs ++ ys) out in
      (state' ≡ state_y) × (shown s ≡ shown s_x ++ shown s_y)
filter-append state xs ys out_x out_y out hx hy h =
    let first = filter-room state xs out_x hx in
    let second = filter-room (filter state xs out_x).0 ys out_y hy in
    let whole = filter-room state (xs ++ ys) out (omega (arith, length-append xs ys)) in
    let split = emitted-append xs ys state in
    (
      whole.0 ∙ split.1 ∙ ap (λ w. after w ys) (sym first.0) ∙ sym second.0,
      whole.1
          ∙ split.0
          ∙ ap₂ ◌++◌ (sym first.1) (ap (λ w. emitted w ys) (sym first.0) ∙ sym second.1),
    )
