-- ===== src/Diff/Files.antt =====
-- What the scan of include/axiom/diff.hpp captures: the first 256 of the files of the tree, which a
-- walk without bounds on their number lists.
use axiom_vm.Prelude.{
  ℕ, zero, suc, ◌≤◌, ◌≡◌, refl, ap, sym, ◌∙◌, inl, inr, Bool, true, false, ◌||◌, Option, none, some,
  List, [], ◌∷◌, ◌++◌, arith, if◌then◌else◌, leb, ltb, length, take, Bool-cases, append_assoc,
  append-nil, length-append, length-take, take-all,
}
use axiom_vm.Diff.{FileRecord}
use axiom_vm.Diff.Scan.{
  FileStatus, Listing, unreadable, listed, Entries, no_more, entry, is_dir, is_file, is_skipped,
  full_path, dir_opened, dir_closed, Scan, note, empty_scan, record_of, add_record, scan_found,
  scan_recursive, scan_entries,
}

-- The records of one name, `inside` being those of its directory.
abbrev pub files_found : List ℕ → Option FileStatus → List FileRecord → List FileRecord
files_found path none inside = []
files_found path (some st) inside =
    if is_dir st.mode then inside else if is_file st.mode then record_of path st ∷ [] else []

-- All files of a tree, at most four levels deep, with a path below 128 bytes.
unfoldable mutual
  pub files_below : List ℕ → ℕ → Listing → List FileRecord
  files_below dir_path depth unreadable = []
  files_below dir_path depth (listed fd es) =
      let further = files_in dir_path depth es in if leb 4 depth then [] else further

  pub files_in : List ℕ → ℕ → Entries → List FileRecord
  files_in dir_path depth no_more = []
  files_in dir_path depth (entry d_name st below es) =
      let path = full_path dir_path d_name in
      let inside = files_below path (suc depth) below in
      let further = files_in dir_path depth es in
      (if is_skipped d_name path then [] else files_found path st inside) ++ further

take-take-append :
    {A : Type 0} (n : ℕ) (xs ys : List A) → take n (take n xs ++ ys) ≡ take n (xs ++ ys)
take-take-append zero xs ys = refl
take-take-append (suc n) [] ys = refl
take-take-append (suc n) (x ∷ xs) ys = ap (◌∷◌ x) (take-take-append n xs ys)

-- What is full stays as it is.
take-full : {A : Type 0} (n : ℕ) (xs ys : List A) → length xs ≡ n → take n (xs ++ ys) ≡ xs
take-full zero [] ys h = refl
take-full zero (x ∷ xs) ys h = absurd (omega arith)
take-full (suc n) [] ys h = absurd (omega arith)
take-full (suc n) (x ∷ xs) ys h = ap (◌∷◌ x) (take-full n xs ys (omega arith))

module _ (entries : List FileRecord) (room : length entries ≤ 256) where
  nothing_more : entries ≡ take 256 (entries ++ [])
  nothing_more = sym (rw (append-nil entries) (take-all 256 entries room))

  -- the records of a name, then those of the others
  joined :
      (next this rest out : List FileRecord)
      → next ≡ take 256 (entries ++ this)
      → out ≡ take 256 (next ++ rest)
      → out ≡ take 256 (entries ++ (this ++ rest))
  joined next this rest out h g =
      g
      ∙ ap (λ xs. take 256 (xs ++ rest)) h
      ∙ take-take-append 256 (entries ++ this) rest
      ∙ ap (take 256) (append_assoc entries this rest)

  -- a guard that leaves the entries where there is nothing to add or they are full
  unless_full :
      (stop : Bool) (more files : List FileRecord)
      → more ≡ take 256 (entries ++ files)
      → (if stop || leb 256 (length entries) then entries else more)
        ≡ take 256 (entries ++ (if stop then [] else files))
  unless_full true more files h = nothing_more
  unless_full false more files h = elim (Bool-cases (leb 256 (length entries))) [
    | inl e ↦ rw e (sym (take-full 256 entries files (ground arith)))
    | inr e ↦ rw e h
  ]

length-take_few : (xs next : List FileRecord) → next ≡ take 256 xs → length next ≤ 256
length-take_few xs next h = omega (arith, ap length h, length-take 256 xs)

if-entries :
    (b : Bool) (s t : Scan) → (if b then s else t).entries ≡ (if b then s.entries else t.entries)
if-entries true s t = refl
if-entries false s t = refl

-- What a scan has is the first 256 of what it had and of some files.
Adds : Scan → List FileRecord → Scan → Type 0
Adds s files t = t.entries ≡ take 256 (s.entries ++ files)

module _ (s : Scan) (room : length s.entries ≤ 256) where
  Adds-nothing : Adds s [] s
  unfolding Adds
  Adds-nothing = nothing_more s.entries room

  add_record-Adds : (rec : FileRecord) → Adds s (rec ∷ []) (add_record rec s)
  unfolding add_record Adds
  add_record-Adds rec = elim (Bool-cases (ltb (length s.entries) 256)) [
    | inl e ↦
        let fits : length (s.entries ++ (rec ∷ [])) ≤ 256 =
          ground (arith, length-append s.entries (rec ∷ [])) in
        rw e (sym (take-all 256 (s.entries ++ (rec ∷ [])) fits))
    | inr e ↦
        let full : length s.entries ≡ 256 = ground arith in
        rw e (sym (take-full 256 s.entries (rec ∷ []) full))
  ]

  scan_found-Adds :
      (path : List ℕ) (st : Option FileStatus) (inside : Scan) (files : List FileRecord)
      → Adds s files inside
      → Adds s (files_found path st files) (scan_found path st inside s)
  unfolding scan_found
  scan_found-Adds path none inside files h = Adds-nothing
  scan_found-Adds path (some st) inside files h = elim (Bool-cases (is_dir st.mode)) [
    | inl e ↦ rw e h
    | inr e ↦ elim (Bool-cases (is_file st.mode)) [
      | inl f ↦ rw (e, f) (add_record-Adds (record_of path st))
      | inr f ↦ rw (e, f) Adds-nothing
    ]
  ]

  unless_skipped :
      (skip : Bool) (more : Scan) (files : List FileRecord)
      → Adds s files more
      → Adds s (if skip then [] else files) (if skip then s else more)
  unless_skipped true more files h = Adds-nothing
  unless_skipped false more files h = h

  unless_stopped :
      (stop : Bool) (more : Scan) (files : List FileRecord)
      → Adds s files more
      → Adds s (if stop then [] else files) (if stop || leb 256 (length s.entries) then s else more)
  unfolding Adds
  unless_stopped stop more files h =
      if-entries (stop || leb 256 (length s.entries)) s more
      ∙ unless_full s.entries room stop more.entries files h

Adds-few : (s t : Scan) (files : List FileRecord) → Adds s files t → length t.entries ≤ 256
unfolding Adds
Adds-few s t files h = length-take_few (s.entries ++ files) t.entries h

mutual
  unfolding scan_recursive files_below Adds

  scan_recursive-Adds :
      (dir_path : List ℕ) (depth : ℕ) (dir : Listing) (s : Scan)
      → length s.entries ≤ 256
      → Adds s (files_below dir_path depth dir) (scan_recursive dir_path depth dir s)
  scan_recursive-Adds dir_path depth unreadable s room = Adds-nothing s room
  scan_recursive-Adds dir_path depth (listed fd es) s room =
      let opened = note (dir_opened fd) s in
      unless_stopped s room (leb 4 depth)
        (note (dir_closed fd) (scan_entries dir_path depth es opened)) (files_in dir_path depth es)
        (scan_entries-Adds dir_path depth es opened room)

  scan_entries-Adds :
      (dir_path : List ℕ) (depth : ℕ) (es : Entries) (s : Scan)
      → length s.entries ≤ 256
      → Adds s (files_in dir_path depth es) (scan_entries dir_path depth es s)
  scan_entries-Adds dir_path depth no_more s room = Adds-nothing s room
  scan_entries-Adds dir_path depth (entry d_name st below es) s room =
      let path = full_path dir_path d_name in
      let inside = scan_recursive path (suc depth) below s in
      let files = files_below path (suc depth) below in
      let this = if is_skipped d_name path then [] else files_found path st files in
      let next = if is_skipped d_name path then s else scan_found path st inside s in
      let found : Adds s this next =
        unless_skipped s room (is_skipped d_name path) (scan_found path st inside s)
          (files_found path st files)
          (scan_found-Adds s room path st inside files
            (scan_recursive-Adds path (suc depth) below s room)) in
      let rest = files_in dir_path depth es in
      let out = scan_entries dir_path depth es next in
      let more =
        joined s.entries room next.entries this rest out.entries found
          (scan_entries-Adds dir_path depth es next (Adds-few s next this found)) in
      unless_stopped s room false out (this ++ rest) more

pub scanned-files :
    (dir_path : List ℕ) (root : Listing)
    → (scan_recursive dir_path 0 root empty_scan).entries ≡ take 256 (files_below dir_path 0 root)
unfolding Adds
scanned-files dir_path root = scan_recursive-Adds dir_path 0 root empty_scan (omega arith)
