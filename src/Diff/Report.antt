-- ===== src/Diff/Report.antt =====
-- What the summary of include/axiom/diff.hpp reports.
use axiom_vm.Prelude.{
  ℕ, ◌+◌, ◌-◌, ◌≤◌, ◌<◌, ◌≡◌, refl, ap, sym, ◌∙◌, ◌⊎◌, inl, inr, none, some, List, [], ◌∷◌, ◌++◌,
  arith, length, length-append, append_assoc, append-nil, if◌then◌else◌, ltb, ◌==◌, Bool-cases,
  Option-cases, lt→ltb, ltb→lt, ltb→le, ==→eq,
}
use axiom_vm.Ansi.Output.{IsSubsequence, done, skip, keep}
use axiom_vm.Diff.{
  FileRecord, find_record, Change, added, modified, removed, line, put_line, is_touched, put_new,
  put_gone, compute_diff,
}

-- The changes between two snapshots, in the order in which they are reported.
unfoldable pub new_changes : List FileRecord → List FileRecord → List Change
unfolding find_record is_touched
new_changes pre [] = []
new_changes pre (r ∷ rs) = elim (find_record r.path pre) [
  | none ↦ added r.path r.size ∷ new_changes pre rs
  | some old ↦
      if is_touched old r
      then modified r.path old.size r.size ∷ new_changes pre rs
      else new_changes pre rs
]

unfoldable pub gone_changes : List FileRecord → List FileRecord → List Change
unfolding find_record
gone_changes post [] = []
gone_changes post (r ∷ rs) = elim (find_record r.path post) [
  | none ↦ removed r.path ∷ gone_changes post rs
  | some _ ↦ gone_changes post rs
]

unfoldable pub changes : List FileRecord → List FileRecord → List Change
unfolding new_changes gone_changes
changes pre post = new_changes pre post ++ gone_changes post pre

abbrev pub lines : List Change → List ℕ
lines [] = []
lines (c ∷ cs) = line c ++ lines cs

-- Writing the changes one after the other.
abbrev put_all : ℕ → List Change → List ℕ → List ℕ
put_all capacity [] out = out
put_all capacity (c ∷ cs) out = put_all capacity cs (put_line capacity out c)

put_new-changes :
    (capacity : ℕ) (pre post : List FileRecord) (out : List ℕ)
    → put_new capacity pre post out ≡ put_all capacity (new_changes pre post) out
unfolding put_new new_changes
put_new-changes capacity pre [] out = refl
put_new-changes capacity pre (r ∷ rs) out = elim (Option-cases (find_record r.path pre)) [
  | inl e ↦ rw (put_new, new_changes, e) (put_new-changes capacity pre rs _)
  | inr (old, e) ↦
      rw (put_new, new_changes, e)
        (elim (Bool-cases (is_touched old r)) [
          | inl t ↦ rw t (put_new-changes capacity pre rs _)
          | inr t ↦ rw t (put_new-changes capacity pre rs out)
        ])
]

put_gone-changes :
    (capacity : ℕ) (post pre : List FileRecord) (out : List ℕ)
    → put_gone capacity post pre out ≡ put_all capacity (gone_changes post pre) out
unfolding put_gone gone_changes
put_gone-changes capacity post [] out = refl
put_gone-changes capacity post (r ∷ rs) out = elim (Option-cases (find_record r.path post)) [
  | inl e ↦ rw (put_gone, gone_changes, e) (put_gone-changes capacity post rs _)
  | inr (new, e) ↦ rw (put_gone, gone_changes, e) (put_gone-changes capacity post rs out)
]

put_all-append :
    (capacity : ℕ) (cs ds : List Change) (out : List ℕ)
    → put_all capacity (cs ++ ds) out ≡ put_all capacity ds (put_all capacity cs out)
put_all-append capacity [] ds out = refl
put_all-append capacity (c ∷ cs) ds out = put_all-append capacity cs ds (put_line capacity out c)

compute_diff-changes :
    (capacity : ℕ) (pre post : List FileRecord)
    → 0 < capacity
    → compute_diff capacity pre post ≡ put_all capacity (changes pre post) []
unfolding compute_diff changes
compute_diff-changes capacity pre post pos = elim (Bool-cases (capacity == 0)) [
  | inl e ↦ absurd (omega (arith, ==→eq capacity 0 e))
  | inr e ↦ rw e (
      ap (put_gone capacity post pre) (put_new-changes capacity pre post [])
      ∙ put_gone-changes capacity post pre _
      ∙ sym (put_all-append capacity (new_changes pre post) (gone_changes post pre) []))
]

line-positive : (c : Change) → 0 < length (line c)
unfolding line
line-positive (added path size) = omega arith
line-positive (modified path old new) = omega arith
line-positive (removed path) = omega arith

-- A line goes in whole or not at all.
put_line-cases :
    (capacity : ℕ) (out : List ℕ) (c : Change)
    → ((put_line capacity out c ≡ out ++ line c) × (length (line c) < capacity - length out))
      ⊎ ((put_line capacity out c ≡ out) × (capacity - length out ≤ length (line c)))
unfolding put_line
put_line-cases capacity out c = elim (Bool-cases (ltb (length (line c)) (capacity - length out))) [
  | inl e ↦ inl (rw (lt→ltb 0 (length (line c)) (line-positive c), e) refl, ltb→lt _ _ e)
  | inr e ↦ inr (rw (lt→ltb 0 (length (line c)) (line-positive c), e) refl, ltb→le _ _ e)
]

-- Some of the changes, in their order, each as a whole line, with room for a zero byte.
pub record Report (capacity : ℕ) (cs : List Change) (before text : List ℕ) : Type 0 where
  pub kept : List Change
  pub in_order : IsSubsequence kept cs
  pub whole_lines : text ≡ before ++ lines kept
  pub bounded : length text < capacity

put_all-Report :
    (capacity : ℕ) (cs : List Change) (out : List ℕ)
    → length out < capacity
    → Report capacity cs out (put_all capacity cs out)
put_all-Report capacity [] out h = record {
  kept = [];
  in_order = done;
  whole_lines = sym (append-nil out);
  bounded = h;
}
put_all-Report capacity (c ∷ cs) out h = elim (put_line-cases capacity out c) [
  | inl (e, room) ↦
      let r =
        put_all-Report capacity cs (put_line capacity out c)
          (omega (arith, ap length e, length-append out (line c))) in
      record {
        kept = c ∷ r.kept;
        in_order = keep c r.in_order;
        whole_lines =
            r.whole_lines
            ∙ ap (λ xs. xs ++ lines r.kept) e
            ∙ append_assoc out (line c) (lines r.kept);
        bounded = r.bounded;
      }
  | inr (e, full) ↦
      let r = put_all-Report capacity cs (put_line capacity out c) (omega (arith, ap length e)) in
      record {
        kept = r.kept;
        in_order = skip c r.in_order;
        whole_lines = r.whole_lines ∙ ap (λ xs. xs ++ lines r.kept) e;
        bounded = r.bounded;
      }
]

-- Into a destination that is not empty `compute_diff` writes whole lines only, each of a change
-- between the snapshots, in the order of the changes and none twice, and stays below the
-- destination's size.
pub compute_diff-Report :
    (capacity : ℕ) (pre post : List FileRecord)
    → 0 < capacity
    → Report capacity (changes pre post) [] (compute_diff capacity pre post)
compute_diff-Report capacity pre post pos =
    rw (compute_diff-changes capacity pre post pos)
      (put_all-Report capacity (changes pre post) [] pos)

put_all_complete :
    (capacity : ℕ) (cs : List Change) (out : List ℕ)
    → length out + length (lines cs) < capacity
    → put_all capacity cs out ≡ out ++ lines cs
put_all_complete capacity [] out h = sym (append-nil out)
put_all_complete capacity (c ∷ cs) out h = elim (put_line-cases capacity out c) [
  | inl (e, room) ↦
      put_all_complete capacity cs (put_line capacity out c)
        (omega (arith, ap length e, length-append out (line c), length-append (line c) (lines cs)))
      ∙ ap (λ xs. xs ++ lines cs) e
      ∙ append_assoc out (line c) (lines cs)
  | inr (e, full) ↦ absurd (omega (arith, length-append (line c) (lines cs)))
]

-- A destination with room for the lines of all changes and a zero byte gets them all: the added and
-- modified files in the order of the later snapshot, then the removed ones in that of the earlier.
pub compute_diff_complete :
    (capacity : ℕ) (pre post : List FileRecord)
    → length (lines (changes pre post)) < capacity
    → compute_diff capacity pre post ≡ lines (changes pre post)
compute_diff_complete capacity pre post room =
    compute_diff-changes capacity pre post (omega arith)
    ∙ put_all_complete capacity (changes pre post) [] (omega (arith, room))
