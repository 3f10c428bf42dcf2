-- ===== src/Diff/Scan.antt =====
-- `DirectorySnapshot` of include/axiom/diff.hpp: the walk over a directory.
use axiom_vm.Prelude.{
  ℕ, suc, ◌/◌, ◌%◌, Bool, ◌||◌, Option, none, some, List, [], ◌∷◌, ◌++◌, if◌then◌else◌, leb, ltb,
  ◌==◌, length, codes, same_text,
}
use axiom_vm.Common.{Result, ok, err, invalid_argument}
use axiom_vm.Server.Handlers.Files.{c_string}
use axiom_vm.Diff.{FileRecord}

-- `MAX_SNAPSHOT_FILES`, `MAX_PATH_LEN` and `MAX_SCAN_DEPTH`
abbrev pub max_snapshot_files : ℕ
max_snapshot_files = 256

abbrev pub max_path_len : ℕ
max_path_len = 128

abbrev pub max_scan_depth : ℕ
max_scan_depth = 4

-- What the scan reads of `struct stat`.
pub record FileStatus : Type 0 where
  pub ino : ℕ
  pub size : ℕ
  pub mtime_sec : ℕ
  pub mtime_nsec : ℕ
  pub mode : ℕ

-- What the kernel answers: `open` of a path that fails, or its descriptor and the names that getdents64 lists
-- until it gives none, each with the answer of fstatat, none if it fails, and with the answer of
-- `open` one level below.
mutual
  pub data Listing : Type 0 where
    unreadable : Listing
    listed : ℕ → Entries → Listing

  pub data Entries : Type 0 where
    no_more : Entries
    entry : List ℕ → Option FileStatus → Listing → Entries → Entries

-- `S_ISDIR`, and `S_ISREG` or `S_ISLNK`
unfoldable pub is_dir : ℕ → Bool
is_dir mode = mode / 4096 % 16 == 4

unfoldable pub is_file : ℕ → Bool
is_file mode = mode / 4096 % 16 == 8 || mode / 4096 % 16 == 10

unfoldable pub is_special : List ℕ → Bool
unfolding same_text
is_special d_name = same_text d_name (codes ".") || same_text d_name (codes "..")

-- "%s/%s" of two texts without a zero byte: a path that `capture` cuts at one, and a name, which
-- ends at one in the kernel's answer
abbrev pub full_path : List ℕ → List ℕ → List ℕ
full_path dir_path d_name = dir_path ++ (b'/' ∷ d_name)

abbrev pub record_of : List ℕ → FileStatus → FileRecord
record_of path st = record {
  path = path;
  ino = st.ino;
  size = st.size;
  mtime_sec = st.mtime_sec;
  mtime_nsec = st.mtime_nsec;
  mode = st.mode;
}

-- The opening and the closing of a directory.
pub data ScanCall : Type 0 where
  dir_opened : ℕ → ScanCall
  dir_closed : ℕ → ScanCall

-- The vector `entries_`, and what the scan asked of the kernel.
pub record Scan : Type 0 where
  pub entries : List FileRecord
  pub calls : List ScanCall

abbrev pub note : ScanCall → Scan → Scan
note c s = record s { calls = s.calls ++ (c ∷ []) }

-- `push_back`, whose answer is not read
unfoldable pub add_record : FileRecord → Scan → Scan
add_record rec s =
    if ltb (length s.entries) max_snapshot_files
    then record s { entries = s.entries ++ (rec ∷ []) }
    else s

-- What is done for a name, `inside` being what the scan of a directory gives.
unfoldable pub scan_found : List ℕ → Option FileStatus → Scan → Scan → Scan
unfolding is_dir is_file add_record
scan_found path none inside s = s
scan_found path (some st) inside s =
    if is_dir st.mode
    then inside
    else if is_file st.mode
    then add_record (record_of path st) s
    else s

abbrev pub is_skipped : List ℕ → List ℕ → Bool
is_skipped d_name path = is_special d_name || leb max_path_len (length path)

unfoldable mutual
  unfolding is_special scan_found

  pub scan_recursive : List ℕ → ℕ → Listing → Scan → Scan
  scan_recursive dir_path depth unreadable s = s
  scan_recursive dir_path depth (listed fd es) s =
      let further =
        note (dir_closed fd) (scan_entries dir_path depth es (note (dir_opened fd) s)) in
      if leb max_scan_depth depth || leb max_snapshot_files (length s.entries) then s else further

  -- the loops over what getdents64 gives
  pub scan_entries : List ℕ → ℕ → Entries → Scan → Scan
  scan_entries dir_path depth no_more s = s
  scan_entries dir_path depth (entry d_name st below es) s =
      let path = full_path dir_path d_name in
      let inside = scan_recursive path (suc depth) below s in
      let further =
        scan_entries dir_path depth es
          (if is_skipped d_name path then s else scan_found path st inside s) in
      if leb max_snapshot_files (length s.entries) then s else further

abbrev pub empty_scan : Scan
empty_scan = record { entries = []; calls = [] }

-- The base path is copied and read up to a zero byte.
unfoldable pub capture : List ℕ → Listing → Result Scan
unfolding scan_recursive c_string
capture base_path root =
    if length base_path == 0 || leb max_path_len (length base_path)
    then err invalid_argument
    else ok (scan_recursive (c_string base_path) 0 root empty_scan)
