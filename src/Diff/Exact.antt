-- ===== src/Diff/Exact.antt =====
-- The changes that include/axiom/diff.hpp reports are exactly those between the snapshots.
use axiom_vm.Prelude.{
  ℕ, ◌≡◌, ◌≢◌, refl, ap, sym, ◌∙◌, subst, ◌⊎◌, inl, inr, true, none, some, List, [], ◌∷◌, arith,
  ◌==◌, All, All-append, IsIn, first, later, all_at, All-of_in, IsIn-append_left, IsIn-append_right,
  Bool-cases, Option-cases, same_text, same_text→eq, same_text_self, same_text→ne,
}
use axiom_vm.Diff.{FileRecord, find_record, Change, added, modified, removed, is_touched}
use axiom_vm.Diff.Report.{new_changes, gone_changes, changes}

-- No record has the path.
abbrev pub IsAbsent : List ℕ → List FileRecord → Type 0
IsAbsent path rs = All (λ r. r.path ≢ path) rs

abbrev pub PathsAreDistinct : List FileRecord → Type 0
PathsAreDistinct [] = Unit
PathsAreDistinct (r ∷ rs) = IsAbsent r.path rs × PathsAreDistinct rs

-- The size or the time of the last change differs.
abbrev pub IsTouched : FileRecord → FileRecord → Type 0
IsTouched old new =
    (old.size ≢ new.size) ⊎ ((old.mtime_sec ≢ new.mtime_sec) ⊎ (old.mtime_nsec ≢ new.mtime_nsec))

-- What a change between two snapshots is.
pub data IsChange (pre post : List FileRecord) : Change → Type 0 where
  is_added :
      (r : FileRecord) → IsIn r post → IsAbsent r.path pre → IsChange pre post (added r.path r.size)
  is_modified :
      (old new : FileRecord)
      → IsIn old pre
      → IsIn new post
      → old.path ≡ new.path
      → IsTouched old new
      → IsChange pre post (modified new.path old.size new.size)
  is_removed :
      (r : FileRecord) → IsIn r pre → IsAbsent r.path post → IsChange pre post (removed r.path)

find_record-none :
    (path : List ℕ) (rs : List FileRecord) → find_record path rs ≡ none → IsAbsent path rs
unfolding find_record
find_record-none path [] h = tt
find_record-none path (r ∷ rs) h = elim (Bool-cases (same_text r.path path)) [
  | inl e ↦ let h' = rw (find_record, e) at h in cc (h')
  | inr e ↦
      let h' = rw (find_record, e) at h in (same_text→ne r.path path e, find_record-none path rs h')
]

find_record-absent :
    (path : List ℕ) (rs : List FileRecord) → IsAbsent path rs → find_record path rs ≡ none
unfolding find_record
find_record-absent path [] h = refl
find_record-absent path (r ∷ rs) (differs, h) = elim (Bool-cases (same_text r.path path)) [
  | inl e ↦ absurd (differs (same_text→eq r.path path e))
  | inr e ↦ rw (find_record, e) (find_record-absent path rs h)
]

find_record-some :
    (path : List ℕ) (rs : List FileRecord) (old : FileRecord)
    → find_record path rs ≡ some old
    → IsIn old rs × (old.path ≡ path)
unfolding find_record
find_record-some path [] old h = cc
find_record-some path (r ∷ rs) old h = elim (Bool-cases (same_text r.path path)) [
  | inl e ↦
      let h' = rw (find_record, e) at h in
      let same : r ≡ old = cc (h') in
      (
        subst (λ x. IsIn x (r ∷ rs)) same first,
        sym (ap (λ (x : FileRecord). x.path) same) ∙ same_text→eq r.path path e,
      )
  | inr e ↦
      let h' = rw (find_record, e) at h in
      let (i, p) = find_record-some path rs old h' in (later i, p)
]

find_record-in :
    (path : List ℕ) (rs : List FileRecord) (old : FileRecord)
    → PathsAreDistinct rs
    → IsIn old rs
    → old.path ≡ path
    → find_record path rs ≡ some old
unfolding find_record
find_record-in path [] old ds i p = elim i [ ]
find_record-in path (r ∷ rs) old (apart, ds) first p =
    let same : same_text r.path path ≡ true =
      ap (same_text r.path) (sym p) ∙ same_text_self r.path in
    rw (find_record, same)
find_record-in path (r ∷ rs) old (apart, ds) (later i) p =
    let differs = all_at (λ (x : FileRecord). x.path ≢ r.path) i apart in
    elim (Bool-cases (same_text r.path path)) [
      | inl e ↦ absurd (differs (p ∙ sym (same_text→eq r.path path e)))
      | inr e ↦ rw (find_record, e) (find_record-in path rs old ds i p)
    ]

is_touched-IsTouched : (old new : FileRecord) → is_touched old new ≡ true → IsTouched old new
unfolding is_touched
is_touched-IsTouched old new h = elim (Bool-cases (old.size == new.size)) [
  | inr e ↦ inl (λ x. ground arith)
  | inl e ↦ elim (Bool-cases (old.mtime_sec == new.mtime_sec)) [
    | inr f ↦ inr (inl (λ x. ground arith))
    | inl f ↦ inr (inr (λ x. ground arith))
  ]
]

touched-is_touched : (old new : FileRecord) → IsTouched old new → is_touched old new ≡ true
unfolding is_touched
touched-is_touched old new (inl h) = ground arith
touched-is_touched old new (inr (inl h)) = ground arith
touched-is_touched old new (inr (inr h)) = ground arith

module _ (pre post : List FileRecord) where
  new-IsChange :
      (rs : List FileRecord)
      → All (λ r. IsIn r post) rs
      → All (IsChange pre post) (new_changes pre rs)
  unfolding new_changes
  new-IsChange [] h = tt
  new-IsChange (r ∷ rs) (i, is) = elim (Option-cases (find_record r.path pre)) [
    | inl e ↦ rw (new_changes, e) (is_added r i (find_record-none r.path pre e), new-IsChange rs is)
    | inr (old, e) ↦
        let (io, p) = find_record-some r.path pre old e in
        elim (Bool-cases (is_touched old r)) [
          | inl t ↦
              rw (new_changes, e, t)
                (is_modified old r io i p (is_touched-IsTouched old r t), new-IsChange rs is)
          | inr t ↦ rw (new_changes, e, t) (new-IsChange rs is)
        ]
  ]

  gone-IsChange :
      (rs : List FileRecord)
      → All (λ r. IsIn r pre) rs
      → All (IsChange pre post) (gone_changes post rs)
  unfolding gone_changes
  gone-IsChange [] h = tt
  gone-IsChange (r ∷ rs) (i, is) = elim (Option-cases (find_record r.path post)) [
    | inl e ↦
        rw (gone_changes, e) (is_removed r i (find_record-none r.path post e), gone-IsChange rs is)
    | inr (new, e) ↦ rw (gone_changes, e) (gone-IsChange rs is)
  ]

  -- The changes of the other records stand among those of all.
  new_changes-later :
      (c : Change) (r : FileRecord) (rs : List FileRecord)
      → IsIn c (new_changes pre rs)
      → IsIn c (new_changes pre (r ∷ rs))
  unfolding new_changes
  new_changes-later c r rs i = elim (Option-cases (find_record r.path pre)) [
    | inl e ↦ rw (new_changes, e) (later i)
    | inr (old, e) ↦ elim (Bool-cases (is_touched old r)) [
      | inl t ↦ rw (new_changes, e, t) (later i)
      | inr t ↦ rw (new_changes, e, t) i
    ]
  ]

  gone_changes-later :
      (c : Change) (r : FileRecord) (rs : List FileRecord)
      → IsIn c (gone_changes post rs)
      → IsIn c (gone_changes post (r ∷ rs))
  unfolding gone_changes
  gone_changes-later c r rs i = elim (Option-cases (find_record r.path post)) [
    | inl e ↦ rw (gone_changes, e) (later i)
    | inr (new, e) ↦ rw (gone_changes, e) i
  ]

  in_added :
      (r : FileRecord) (rs : List FileRecord)
      → IsIn r rs
      → find_record r.path pre ≡ none
      → IsIn (added r.path r.size) (new_changes pre rs)
  unfolding new_changes
  in_added r [] i e = elim i [ ]
  in_added r (s ∷ rs) first e = rw (new_changes, e) first
  in_added r (s ∷ rs) (later i) e = new_changes-later _ s rs (in_added r rs i e)

  in_modified :
      (old r : FileRecord) (rs : List FileRecord)
      → IsIn r rs
      → find_record r.path pre ≡ some old
      → is_touched old r ≡ true
      → IsIn (modified r.path old.size r.size) (new_changes pre rs)
  unfolding new_changes
  in_modified old r [] i e t = elim i [ ]
  in_modified old r (s ∷ rs) first e t = rw (new_changes, e, t) first
  in_modified old r (s ∷ rs) (later i) e t = new_changes-later _ s rs (in_modified old r rs i e t)

  in_removed :
      (r : FileRecord) (rs : List FileRecord)
      → IsIn r rs
      → find_record r.path post ≡ none
      → IsIn (removed r.path) (gone_changes post rs)
  unfolding gone_changes
  in_removed r [] i e = elim i [ ]
  in_removed r (s ∷ rs) first e = rw (gone_changes, e) first
  in_removed r (s ∷ rs) (later i) e = gone_changes-later _ s rs (in_removed r rs i e)

  pub reported :
      PathsAreDistinct pre → (c : Change) → IsChange pre post c → IsIn c (changes pre post)
  unfolding changes
  reported distinct _ (is_added r i h) =
      IsIn-append_left (gone_changes post pre) (in_added r post i (find_record-absent r.path pre h))
  reported distinct _ (is_modified old new io i p t) = IsIn-append_left (gone_changes post pre) (
      in_modified old new post i (find_record-in new.path pre old distinct io p)
        (touched-is_touched old new t))
  reported distinct _ (is_removed r i h) =
      IsIn-append_right (new_changes pre post)
        (in_removed r pre i (find_record-absent r.path post h))

  pub all_changes : All (IsChange pre post) (changes pre post)
  unfolding changes
  all_changes =
      All-append (IsChange pre post) (new_changes pre post) (gone_changes post pre)
        (new-IsChange post (All-of_in (λ r. IsIn r post) post (λ r i. i)))
        (gone-IsChange pre (All-of_in (λ r. IsIn r pre) pre (λ r i. i)))
