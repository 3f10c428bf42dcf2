-- ===== src/Diff.antt =====
-- `compute_diff` of include/axiom/diff.hpp: the lines that tell two directory snapshots apart.
pub mod Report
pub mod Scan
pub mod Files
pub mod Exact
pub mod Names
pub mod Distinct
pub mod Complete
pub mod Descriptors
use axiom_vm.Prelude.{
  ℕ, zero, suc, ◌+◌, ◌-◌, ◌*◌, ◌/◌, ◌%◌, Bool, true, false, ◌&&◌, ◌||◌, not, Option, none, some,
  List, [], ◌∷◌, ◌++◌, length, if◌then◌else◌, ltb, ◌==◌, same_text,
}

-- `FileRecord`, its path up to the first zero byte.
pub record FileRecord : Type 0 where
  pub path : List ℕ
  pub ino : ℕ
  pub size : ℕ
  pub mtime_sec : ℕ
  pub mtime_nsec : ℕ
  pub mode : ℕ

-- the inner loops: the first record with a path
unfoldable pub find_record : List ℕ → List FileRecord → Option FileRecord
unfolding same_text
find_record path [] = none
find_record path (r ∷ rs) =
    let rest = find_record path rs in if same_text r.path path then some r else rest

-- "%lu", with fuel for the digits
unfoldable pub digits : ℕ → ℕ → List ℕ
digits zero n = []
digits (suc fuel) n =
    let front = digits fuel (n / 10) in
    if ltb n 10 then (0x30 + n) ∷ [] else front ++ ((0x30 + n % 10) ∷ [])

abbrev pub decimal : ℕ → List ℕ
decimal n = digits 20 n

-- The lines of the summary.
pub data Change : Type 0 where
  added : List ℕ → ℕ → Change
  modified : List ℕ → ℕ → ℕ → Change
  removed : List ℕ → Change

unfoldable pub line : Change → List ℕ
unfolding digits
line (added path size) =
    b'+' ∷ b' ' ∷ (path ++ (b' ' ∷ b'(' ∷ (decimal size ++ (b' ' ∷ b'B' ∷ b')' ∷ 0x0A ∷ []))))
line (modified path old new) =
    b'M'
    ∷ b' '
    ∷ (path
        ++ (b' '
            ∷ b'('
            ∷ (decimal old
                ++ (b' '
                    ∷ b'-'
                    ∷ b'>'
                    ∷ b' '
                    ∷ (decimal new ++ (b' ' ∷ b'B' ∷ b')' ∷ 0x0A ∷ []))))))
line (removed path) = b'-' ∷ b' ' ∷ (path ++ (0x0A ∷ []))

-- `snprintf` behind what is written, which counts only if the line and its zero byte fit.
unfoldable pub put_line : ℕ → List ℕ → Change → List ℕ
unfolding line
put_line capacity out change =
    let n = length (line change) in
    if ltb 0 n && ltb n (capacity - length out) then out ++ line change else out

unfoldable pub is_touched : FileRecord → FileRecord → Bool
is_touched old new =
    not (old.size == new.size)
    || (not (old.mtime_sec == new.mtime_sec) || not (old.mtime_nsec == new.mtime_nsec))

-- the first loop, over the later snapshot
unfoldable pub put_new : ℕ → List FileRecord → List FileRecord → List ℕ → List ℕ
unfolding put_line find_record is_touched
put_new capacity pre [] out = out
put_new capacity pre (r ∷ rs) out = elim (find_record r.path pre) [
  | none ↦ put_new capacity pre rs (put_line capacity out (added r.path r.size))
  | some old ↦
      put_new capacity pre rs
        (if is_touched old r then put_line capacity out (modified r.path old.size r.size) else out)
]

-- the second loop, over the earlier snapshot
unfoldable pub put_gone : ℕ → List FileRecord → List FileRecord → List ℕ → List ℕ
unfolding put_line find_record
put_gone capacity post [] out = out
put_gone capacity post (r ∷ rs) out = elim (find_record r.path post) [
  | none ↦ put_gone capacity post rs (put_line capacity out (removed r.path))
  | some _ ↦ put_gone capacity post rs out
]

-- The bytes at the front of the destination that the returned count covers.
unfoldable pub compute_diff : ℕ → List FileRecord → List FileRecord → List ℕ
unfolding put_new put_gone
compute_diff capacity pre post =
    if capacity == 0 then [] else put_gone capacity post pre (put_new capacity pre post [])
