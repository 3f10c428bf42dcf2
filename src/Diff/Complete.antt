-- ===== src/Diff/Complete.antt =====
-- From the directory that include/axiom/diff.hpp scans to the changes that it reports.
use axiom_vm.Prelude.{
  ℕ, zero, suc, ◌≢◌, ◌<◌, ◌≡◌, sym, subst, inl, inr, ◌||◌, List, [], ◌∷◌, leb, ◌==◌, length, take,
  All-take, IsIn, all_at, Bool-cases,
}
use axiom_vm.Common.{ok}
use axiom_vm.Server.Handlers.Files.{c_string}
use axiom_vm.Diff.{FileRecord, Change, compute_diff}
use axiom_vm.Diff.Scan.{Scan, empty_scan, Listing, scan_recursive, capture}
use axiom_vm.Diff.Files.{files_below, scanned-files}
use axiom_vm.Diff.Names.{IsDirectory}
use axiom_vm.Diff.Distinct.{files_below-PathsAreDistinct}
use axiom_vm.Diff.Exact.{PathsAreDistinct, IsChange, reported, all_changes}
use axiom_vm.Diff.Report.{changes, lines, compute_diff_complete}

PathsAreDistinct-take :
    (n : ℕ) (rs : List FileRecord) → PathsAreDistinct rs → PathsAreDistinct (take n rs)
PathsAreDistinct-take zero rs h = tt
PathsAreDistinct-take (suc n) [] h = tt
PathsAreDistinct-take (suc n) (r ∷ rs) (apart, h) =
    (All-take (λ q. q.path ≢ r.path) n rs apart, PathsAreDistinct-take n rs h)

capture-PathsAreDistinct :
    (base_path : List ℕ) (root : Listing) (scan : Scan)
    → IsDirectory root
    → capture base_path root ≡ ok scan
    → PathsAreDistinct scan.entries
unfolding capture
capture-PathsAreDistinct base_path root scan h e =
    elim (Bool-cases (length base_path == 0 || leb 128 (length base_path))) [
      | inl g ↦ let e' = rw (capture, g) at e in cc (e')
      | inr g ↦
          let e' = rw (capture, g) at e in
          let dir = c_string base_path in
          let same : scan_recursive dir 0 root empty_scan ≡ scan = cc (e') in
          subst (λ (s : Scan). PathsAreDistinct s.entries) same
            (subst PathsAreDistinct (sym (scanned-files dir root)) (
              PathsAreDistinct-take 256 (files_below dir 0 root)
                (files_below-PathsAreDistinct dir 0 root h)))
    ]

-- For an earlier snapshot that was captured from a tree whose directories have no name twice, and any
-- later one, the changes are exactly these: a file of the later snapshot whose path the earlier does
-- not have is added, one at the same path with another size or time is modified, and a file whose
-- path the later one does not have is removed. A destination with room for the lines of all changes
-- and a zero byte gets them all.
pub compute_diff_exact :
    (base_path : List ℕ) (before : Listing) (scan : Scan) (post : List FileRecord) (capacity : ℕ)
    → IsDirectory before
    → capture base_path before ≡ ok scan
    → length (lines (changes scan.entries post)) < capacity
    → (compute_diff capacity scan.entries post ≡ lines (changes scan.entries post))
      × ((c : Change)
          → (IsIn c (changes scan.entries post) → IsChange scan.entries post c)
            × (IsChange scan.entries post c → IsIn c (changes scan.entries post)))
compute_diff_exact base_path before scan post capacity h e room = (
  compute_diff_complete capacity scan.entries post room,
  λ c. (
    λ i. all_at (IsChange scan.entries post) i (all_changes scan.entries post),
    reported scan.entries post (capture-PathsAreDistinct base_path before scan h e) c,
  ),
)
