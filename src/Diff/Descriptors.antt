-- ===== src/Diff/Descriptors.antt =====
-- The scan of include/axiom/diff.hpp closes the directories that it opens.
use axiom_vm.Prelude.{
  ℕ, suc, ◌+◌, ◌≡◌, Bool, true, false, ◌||◌, Option, none, some, List, [], ◌∷◌, ◌++◌, arith,
  if◌then◌else◌, ◌==◌, leb, ltb, length, Bool-cases, inl, inr, subst,
}
use axiom_vm.Common.{ok}
use axiom_vm.Server.Handlers.Files.{c_string}
use axiom_vm.Diff.{FileRecord}
use axiom_vm.Diff.Scan.{
  FileStatus, Listing, unreadable, listed, Entries, no_more, entry, ScanCall, dir_opened,
  dir_closed, Scan, note, empty_scan, is_dir, is_file, is_skipped, full_path, record_of, add_record,
  scan_found, scan_recursive, scan_entries, capture,
}

-- How often a descriptor is opened, and closed.
abbrev pub dir_opens : ℕ → List ScanCall → ℕ
dir_opens d [] = 0
dir_opens d (dir_opened fd ∷ cs) = (if d == fd then 1 else 0) + dir_opens d cs
dir_opens d (dir_closed fd ∷ cs) = dir_opens d cs

abbrev pub dir_closes : ℕ → List ScanCall → ℕ
dir_closes d [] = 0
dir_closes d (dir_opened fd ∷ cs) = dir_closes d cs
dir_closes d (dir_closed fd ∷ cs) = (if d == fd then 1 else 0) + dir_closes d cs

dir_opens-append :
    (d : ℕ) (xs ys : List ScanCall) → dir_opens d (xs ++ ys) ≡ dir_opens d xs + dir_opens d ys
dir_opens-append d [] ys = omega arith
dir_opens-append d (dir_opened fd ∷ xs) ys = omega (arith, dir_opens-append d xs ys)
dir_opens-append d (dir_closed fd ∷ xs) ys = omega (arith, dir_opens-append d xs ys)

dir_closes-append :
    (d : ℕ) (xs ys : List ScanCall) → dir_closes d (xs ++ ys) ≡ dir_closes d xs + dir_closes d ys
dir_closes-append d [] ys = omega arith
dir_closes-append d (dir_opened fd ∷ xs) ys = omega (arith, dir_closes-append d xs ys)
dir_closes-append d (dir_closed fd ∷ xs) ys = omega (arith, dir_closes-append d xs ys)

module _ (d : ℕ) where
  -- From a scan to a later one the descriptor is closed as often as it is opened.
  abbrev Even : Scan → Scan → Type 0
  Even s t = dir_closes d t.calls + dir_opens d s.calls ≡ dir_opens d t.calls + dir_closes d s.calls

  Even-self : (s : Scan) → Even s s
  Even-self s = omega arith

  if-Even : (b : Bool) (s t u : Scan) → Even s t → Even s u → Even s (if b then t else u)
  if-Even true s t u h g = h
  if-Even false s t u h g = g

  -- The directory is closed behind the scan of what it lists.
  closed-Even :
      (fd : ℕ) (s t : Scan) → Even (note (dir_opened fd) s) t → Even s (note (dir_closed fd) t)
  closed-Even fd s t h = omega (
    arith,
    h,
    dir_opens-append d s.calls (dir_opened fd ∷ []),
    dir_closes-append d s.calls (dir_opened fd ∷ []),
    dir_opens-append d t.calls (dir_closed fd ∷ []),
    dir_closes-append d t.calls (dir_closed fd ∷ []),
  )

  add_record-Even : (rec : FileRecord) (s : Scan) → Even s (add_record rec s)
  unfolding add_record
  add_record-Even rec s =
      if-Even (ltb (length s.entries) 256) s (record s { entries = s.entries ++ (rec ∷ []) }) s
        (omega arith) (Even-self s)

  scan_found-Even :
      (path : List ℕ) (st : Option FileStatus) (inside s : Scan)
      → Even s inside
      → Even s (scan_found path st inside s)
  unfolding scan_found
  scan_found-Even path none inside s h = Even-self s
  scan_found-Even path (some st) inside s h =
      if-Even (is_dir st.mode) s inside
        (if is_file st.mode then add_record (record_of path st) s else s) h
        (if-Even (is_file st.mode) s (add_record (record_of path st) s) s
          (add_record-Even (record_of path st) s) (Even-self s))

  mutual
    unfolding scan_recursive

    scan_recursive-Even :
        (dir_path : List ℕ) (depth : ℕ) (dir : Listing) (s : Scan)
        → Even s (scan_recursive dir_path depth dir s)
    scan_recursive-Even dir_path depth unreadable s = Even-self s
    scan_recursive-Even dir_path depth (listed fd es) s =
        let opened = note (dir_opened fd) s in
        let further = scan_entries dir_path depth es opened in
        if-Even (leb 4 depth || leb 256 (length s.entries)) s s (note (dir_closed fd) further)
          (Even-self s) (closed-Even fd s further (scan_entries-Even dir_path depth es opened))

    scan_entries-Even :
        (dir_path : List ℕ) (depth : ℕ) (es : Entries) (s : Scan)
        → Even s (scan_entries dir_path depth es s)
    scan_entries-Even dir_path depth no_more s = Even-self s
    scan_entries-Even dir_path depth (entry d_name st below es) s =
        let path = full_path dir_path d_name in
        let inside = scan_recursive path (suc depth) below s in
        let found = scan_found path st inside s in
        let next = if is_skipped d_name path then s else found in
        let here =
          if-Even (is_skipped d_name path) s s found (Even-self s)
            (scan_found-Even path st inside s (scan_recursive-Even path (suc depth) below s)) in
        if-Even (leb 256 (length s.entries)) s s (scan_entries dir_path depth es next) (Even-self s)
          (omega (arith, here, scan_entries-Even dir_path depth es next))

  pub capture-closes :
      (base_path : List ℕ) (root : Listing) (scan : Scan)
      → capture base_path root ≡ ok scan
      → dir_closes d scan.calls ≡ dir_opens d scan.calls
  unfolding capture
  capture-closes base_path root scan e =
      elim (Bool-cases (length base_path == 0 || leb 128 (length base_path))) [
        | inl g ↦ let e' = rw (capture, g) at e in cc (e')
        | inr g ↦
            let e' = rw (capture, g) at e in
            let dir = c_string base_path in
            let same : scan_recursive dir 0 root empty_scan ≡ scan = cc (e') in
            subst (λ (s : Scan). dir_closes d s.calls ≡ dir_opens d s.calls) same
              (omega (arith, scan_recursive-Even dir 0 root empty_scan))
      ]
