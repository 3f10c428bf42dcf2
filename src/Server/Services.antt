-- ===== src/Server/Services.antt =====
-- What the handlers of include/axiom/server.hpp call: the command runner, the AST engine, the
-- browser bridge and the system calls on files. The server's code takes them as they come.
use axiom_vm.Prelude.{ℕ, Bool, Option, List, ◌≡◌, refl, ◌⊎◌, inl, inr}
use axiom_vm.Common.{Result}

-- `exec::ExecOptions`
pub record ExecOptions : Type 0 where
  pub command : List ℕ
  pub working_dir : List ℕ
  pub timeout_ms : ℕ
  pub flags : ℕ

-- `exec::ExecResult` with the parts of the two buffers that it counts
pub record ExecResult : Type 0 where
  pub exit_code : ℕ
  pub flags : ℕ
  pub cpu_cycles : ℕ
  pub output : List ℕ
  pub diff : List ℕ

-- `ast::SymbolSlice` and `ast::PatchResult`, the latter with the patched text
pub record SymbolSlice : Type 0 where
  pub start_line : ℕ
  pub end_line : ℕ
  pub content : List ℕ

pub record PatchResult : Type 0 where
  pub old_start_line : ℕ
  pub old_end_line : ℕ
  pub new_end_line : ℕ
  pub text : List ℕ

-- The number of symbols and their formatted table: `extract_symbols`, then `format_symbols`.
pub data Symbols : Type 0 where
  not_extracted : Symbols
  not_formatted : ℕ → Symbols
  table : ℕ → List ℕ → Symbols

-- A system call gives a value, or fails with an errno.
pub data Sys {ℓ} (A : Type ℓ) : Type ℓ where
  done : A → Sys A
  fails : ℕ → Sys A

pub Sys-cases {ℓ} :
    {A : Type ℓ} (s : Sys A) → ((a : A) × (s ≡ done a)) ⊎ ((errno : ℕ) × (s ≡ fails errno))
Sys-cases (done a) = inl (a, refl)
Sys-cases (fails errno) = inr (errno, refl)

-- One answer of read(2) on a file.
pub data FileRead : Type 0 where
  chunk : ℕ → List ℕ → FileRead
  end_of_file : FileRead
  interrupted : FileRead
  failed : FileRead

-- open(2): read only, or to write, truncating or appending, with a mode
pub data OpenFlags : Type 0 where
  rdonly : OpenFlags
  trunc : OpenFlags
  append : OpenFlags

-- The operations over a state `W` of the machine behind the server.
pub record Services (W : Type 0) : Type 0 where
  pub run : ExecOptions → W → Result ExecResult × W
  -- the language of a path is known
  pub known_language : List ℕ → Bool
  pub symbols : List ℕ → List ℕ → Symbols
  pub slice : List ℕ → List ℕ → List ℕ → Result SymbolSlice
  pub patch : List ℕ → List ℕ → List ℕ → List ℕ → Result PatchResult
  pub navigate : List ℕ → W → Result (Unit {0}) × W
  -- the number of nodes and the text
  pub get_axtree : W → Result (ℕ × List ℕ) × W
  pub click : ℕ → W → Result (Unit {0}) × W
  pub type_text : ℕ → List ℕ → W → Result (Unit {0}) × W
  pub scroll : ℕ → W → Result (Unit {0}) × W
  pub sys_open : List ℕ → OpenFlags → ℕ → W → Sys ℕ × W
  pub sys_close : ℕ → W → W
  -- st_size, if fstat(2) succeeds
  pub file_size : ℕ → W → Option ℕ
  pub sys_lseek : ℕ → ℕ → W → Sys (Unit {0}) × W
  pub sys_read : ℕ → ℕ → W → Sys (List ℕ) × W
  -- the answers of successive reads up to the end of the file
  pub reads : ℕ → W → List FileRead
  -- errno behind a `write_all` that failed
  pub errno : W → ℕ
  pub sys_mkdir : List ℕ → W → W
