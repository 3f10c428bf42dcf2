-- ===== src/Tests/Diff.antt =====
-- The summary of include/axiom/diff.hpp on two small snapshots.
use axiom_vm.Prelude.{
  ℕ, ◌≡◌, refl, List, [], ◌∷◌, arith, length, ◌<◌, some, codes, IsIn, ◌≢◌, same_text, same_text→ne,
}
use axiom_vm.Common.{ok}
use axiom_vm.Diff.Scan.{
  Scan, dir_opened, dir_closed, FileStatus, Listing, unreadable, listed, no_more, entry, record_of,
  capture,
}
use axiom_vm.Diff.Names.{IsName, IsDirectory, AreEntries}
use axiom_vm.Diff.Exact.{IsChange}
use axiom_vm.Diff.Complete.{compute_diff_exact}
use axiom_vm.Diff.{line, FileRecord, Change, compute_diff, added, modified, removed}
use axiom_vm.Diff.Report.{Report, changes, lines, compute_diff-Report}

abbrev file : ℕ → ℕ → ℕ → FileRecord
file name size mtime = record {
  path = name ∷ [];
  ino = 1;
  size = size;
  mtime_sec = mtime;
  mtime_nsec = 0;
  mode = 0o100644;
}

abbrev earlier : List FileRecord
earlier = file b'a' 5 1 ∷ file b'b' 7 1 ∷ file b'c' 9 1 ∷ []

abbrev later : List FileRecord
later = file b'c' 12 2 ∷ file b'b' 7 1 ∷ file b'd' 10 2 ∷ []

reported :
    changes earlier later
    ≡ modified (b'c' ∷ []) 9 12 ∷ added (b'd' ∷ []) 10 ∷ removed (b'a' ∷ []) ∷ []
unfolding changes
reported = refl

-- "- a" and a newline, in a destination of eight bytes: the two longer lines do not fit.
cut_short : compute_diff 8 earlier later ≡ b'-' ∷ b' ' ∷ b'a' ∷ 0x0A ∷ []
unfolding compute_diff
cut_short = refl

compute_diff-Report_example : Report 8 (changes earlier later) [] (compute_diff 8 earlier later)
compute_diff-Report_example = compute_diff-Report 8 earlier later (omega arith)

abbrev regular : ℕ → FileStatus
regular size = record { ino = 7; size = size; mtime_sec = 1; mtime_nsec = 0; mode = 0o100644 }

abbrev directory : FileStatus
directory = record { ino = 8; size = 0; mtime_sec = 1; mtime_nsec = 0; mode = 0o40755 }

-- "d" with the entries ".", "a" and a directory "s" that holds "b".
abbrev root : Listing
root = listed 3 (
    entry (codes ".") (some directory) unreadable (
      entry (codes "a") (some (regular 3)) unreadable (
        entry (codes "s") (some directory)
          (listed 4 (entry (codes "b") (some (regular 4)) unreadable no_more)) no_more)))

abbrev captured : List FileRecord
captured = record_of (codes "d/a") (regular 3) ∷ record_of (codes "d/s/b") (regular 4) ∷ []

abbrev scan : Scan
scan = record {
  entries = captured;
  calls = dir_opened 3 ∷ dir_opened 4 ∷ dir_closed 4 ∷ dir_closed 3 ∷ [];
}

root_captured : capture (codes "d") root ≡ ok scan
unfolding capture
root_captured = refl

no_slash : {c : ℕ} → c ≢ b'/' → IsName (c ∷ [])
no_slash h = (h, tt)

b-IsDirectory : AreEntries (entry (codes "b") (some (regular 4)) unreadable no_more)
b-IsDirectory = (no_slash (λ e. omega arith), (tt, (tt, tt)))

s-AreEntries : AreEntries (
    entry
      (codes "s")
      (some directory)
      (listed 4 (entry (codes "b") (some (regular 4)) unreadable no_more))
      no_more)
s-AreEntries = (no_slash (λ e. omega arith), (tt, (b-IsDirectory, tt)))

root-IsDirectory : IsDirectory root
unfolding same_text
root-IsDirectory = (
  no_slash (λ e. omega arith),
  (
    (same_text→ne (codes ".") (codes "a") refl, (same_text→ne (codes ".") (codes "s") refl, tt)),
    (
      tt,
      (
        no_slash (λ e. omega arith),
        ((same_text→ne (codes "a") (codes "s") refl, tt), (tt, s-AreEntries)),
      ),
    ),
  ),
)

-- "d/a" has grown and "d/s/b" is gone.
abbrev afterwards : List FileRecord
afterwards = record_of (codes "d/a") (regular 5) ∷ record_of (codes "d/n") (regular 6) ∷ []

room_for_all : length (lines (changes captured afterwards)) < 64
unfolding changes line
room_for_all = omega arith

compute_diff_exact_example :
    (compute_diff 64 captured afterwards ≡ lines (changes captured afterwards))
    × ((c : Change)
        → (IsIn c (changes captured afterwards) → IsChange captured afterwards c)
          × (IsChange captured afterwards c → IsIn c (changes captured afterwards)))
compute_diff_exact_example =
    compute_diff_exact (codes "d") root scan afterwards 64 root-IsDirectory root_captured
      room_for_all
