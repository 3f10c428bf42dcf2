-- ===== src/Diff/Distinct.antt =====
-- The paths that the scan of include/axiom/diff.hpp captures are distinct.
use axiom_vm.Prelude.{
  ℕ, suc, ◌≢◌, refl, sym, subst, inl, inr, Bool, true, false, Option, none, some, List, [], ◌∷◌,
  ◌++◌, if◌then◌else◌, leb, All, All-append, All-map, Bool-cases, append-nil,
}
use axiom_vm.Diff.{FileRecord}
use axiom_vm.Diff.Scan.{
  FileStatus, Listing, unreadable, listed, Entries, no_more, entry, is_dir, is_file, is_skipped,
  full_path,
}
use axiom_vm.Diff.Files.{files_found, files_below, files_in}
use axiom_vm.Diff.Exact.{IsAbsent, PathsAreDistinct}
use axiom_vm.Diff.Names.{IsName, IsDirectory, AreEntries, IsNew, IsAt, IsAt-same, IsAt-below}

-- Where the files of a name stand.
unless-All :
    (P : FileRecord → Type 0) (skip : Bool) (rs : List FileRecord)
    → All P rs
    → All P (if skip then [] else rs)
unless-All P true rs h = tt
unless-All P false rs h = h

abbrev AllAt : List ℕ → List FileRecord → Type 0
AllAt path rs = All (λ r. IsAt path r.path) rs

files_found-AllAt :
    (path : List ℕ) (st : Option FileStatus) (inside : List FileRecord)
    → AllAt path inside
    → AllAt path (files_found path st inside)
files_found-AllAt path none inside h = tt
files_found-AllAt path (some st) inside h = elim (Bool-cases (is_dir st.mode)) [
  | inl e ↦ rw e h
  | inr e ↦ elim (Bool-cases (is_file st.mode)) [
    | inl f ↦
        rw (e, f) (record { ending = []; is_ending = inl refl; splits = sym (append-nil path) }, tt)
    | inr f ↦ rw (e, f) tt
  ]
]

-- The records of one name of a directory.
abbrev files_of : List ℕ → ℕ → List ℕ → Option FileStatus → Listing → List FileRecord
files_of dir depth name st below =
    let path = full_path dir name in
    if is_skipped name path then [] else files_found path st (files_below path (suc depth) below)

files_of-AllAt :
    (dir : List ℕ) (depth : ℕ) (name : List ℕ) (st : Option FileStatus) (below : Listing)
    → AllAt (full_path dir name) (files_below (full_path dir name) (suc depth) below)
    → AllAt (full_path dir name) (files_of dir depth name st below)
files_of-AllAt dir depth name st below h =
    let path = full_path dir name in
    let inside = files_below path (suc depth) below in
    unless-All (λ r. IsAt path r.path) (is_skipped name path) (files_found path st inside)
      (files_found-AllAt path st inside h)

mutual
  unfolding files_below

  files_below-AllAt : (dir : List ℕ) (depth : ℕ) (l : Listing) → AllAt dir (files_below dir depth l)
  files_below-AllAt dir depth unreadable = tt
  files_below-AllAt dir depth (listed fd es) =
      unless-All (λ r. IsAt dir r.path) (leb 4 depth) (files_in dir depth es)
        (files_in-AllAt dir depth es)

  files_in-AllAt : (dir : List ℕ) (depth : ℕ) (es : Entries) → AllAt dir (files_in dir depth es)
  files_in-AllAt dir depth no_more = tt
  files_in-AllAt dir depth (entry name st below es) =
      let here =
        All-map (files_of dir depth name st below) (λ r a. IsAt-below dir name r.path a)
          (files_of-AllAt dir depth name st below
            (files_below-AllAt (full_path dir name) (suc depth) below)) in
      All-append (λ r. IsAt dir r.path) (files_of dir depth name st below) (files_in dir depth es)
        here (files_in-AllAt dir depth es)

-- the facts about a whole directory, of its files at a name
files_of_at :
    (dir : List ℕ) (depth : ℕ) (name : List ℕ) (st : Option FileStatus) (below : Listing)
    → AllAt (full_path dir name) (files_of dir depth name st below)
files_of_at dir depth name st below =
    files_of-AllAt dir depth name st below
      (files_below-AllAt (full_path dir name) (suc depth) below)

-- A path at another name of the directory.
IsElsewhere : List ℕ → List ℕ → List ℕ → Type 0
IsElsewhere dir name path =
    (other : List ℕ) × IsName other × (name ≢ other) × IsAt (full_path dir other) path

files_in-IsElsewhere :
    (dir : List ℕ) (depth : ℕ) (name : List ℕ) (es : Entries)
    → AreEntries es
    → IsNew name es
    → All (λ r. IsElsewhere dir name r.path) (files_in dir depth es)
unfolding files_in IsElsewhere
files_in-IsElsewhere dir depth name no_more h n = tt
files_in-IsElsewhere dir depth name (entry other st below es) (named, (_, (_, rest))) (ne, new) =
    All-append (λ r. IsElsewhere dir name r.path) (files_of dir depth other st below)
      (files_in dir depth es)
      (All-map (files_of dir depth other st below) (λ r a. (other, named, ne, a))
        (files_of_at dir depth other st below))
      (files_in-IsElsewhere dir depth name es rest new)

PathsAreDistinct-append :
    (rs ss : List FileRecord)
    → PathsAreDistinct rs
    → PathsAreDistinct ss
    → All (λ r. IsAbsent r.path ss) rs
    → PathsAreDistinct (rs ++ ss)
PathsAreDistinct-append [] ss hr hs h = hs
PathsAreDistinct-append (r ∷ rs) ss (apart, hr) hs (absent, h) =
    (All-append (λ q. q.path ≢ r.path) rs ss apart absent, PathsAreDistinct-append rs ss hr hs h)

unless-PathsAreDistinct :
    (skip : Bool) (rs : List FileRecord)
    → PathsAreDistinct rs
    → PathsAreDistinct (if skip then [] else rs)
unless-PathsAreDistinct true rs h = tt
unless-PathsAreDistinct false rs h = h

files_found-PathsAreDistinct :
    (path : List ℕ) (st : Option FileStatus) (inside : List FileRecord)
    → PathsAreDistinct inside
    → PathsAreDistinct (files_found path st inside)
files_found-PathsAreDistinct path none inside h = tt
files_found-PathsAreDistinct path (some st) inside h = elim (Bool-cases (is_dir st.mode)) [
  | inl e ↦ rw e h
  | inr e ↦ elim (Bool-cases (is_file st.mode)) [
    | inl f ↦ rw (e, f) (tt, tt)
    | inr f ↦ rw (e, f) tt
  ]
]

-- The files of a name and those of the other names have no path in common.
apart_from :
    (dir : List ℕ) (depth : ℕ) (name : List ℕ) (st : Option FileStatus) (below : Listing)
    (es : Entries)
    → IsName name
    → AreEntries es
    → IsNew name es
    → All (λ r. IsAbsent r.path (files_in dir depth es)) (files_of dir depth name st below)
unfolding IsElsewhere
apart_from dir depth name st below es named others new =
    All-map (files_of dir depth name st below)
      (λ r a.
        All-map (files_in dir depth es)
          (λ q (other, named', ne, b) same. ne (
            IsAt-same dir name other r.path named named' a
              (subst (IsAt (full_path dir other)) same b)))
          (files_in-IsElsewhere dir depth name es others new))
      (files_of_at dir depth name st below)

mutual
  unfolding files_below

  pub files_below-PathsAreDistinct :
      (dir : List ℕ) (depth : ℕ) (l : Listing)
      → IsDirectory l
      → PathsAreDistinct (files_below dir depth l)
  files_below-PathsAreDistinct dir depth unreadable h = tt
  files_below-PathsAreDistinct dir depth (listed fd es) h =
      unless-PathsAreDistinct (leb 4 depth) (files_in dir depth es)
        (files_in-PathsAreDistinct dir depth es h)

  files_in-PathsAreDistinct :
      (dir : List ℕ) (depth : ℕ) (es : Entries)
      → AreEntries es
      → PathsAreDistinct (files_in dir depth es)
  files_in-PathsAreDistinct dir depth no_more h = tt
  files_in-PathsAreDistinct dir depth (entry name st below es) (named, (new, (inside, rest))) =
      let path = full_path dir name in
      let found = files_found path st (files_below path (suc depth) below) in
      PathsAreDistinct-append (files_of dir depth name st below) (files_in dir depth es)
        (unless-PathsAreDistinct (is_skipped name path) found (
          files_found-PathsAreDistinct path st (files_below path (suc depth) below)
            (files_below-PathsAreDistinct path (suc depth) below inside)))
        (files_in-PathsAreDistinct dir depth es rest)
        (apart_from dir depth name st below es named rest new)
