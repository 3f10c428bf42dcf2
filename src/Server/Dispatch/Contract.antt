-- ===== src/Server/Dispatch/Contract.antt =====
-- What the handlers rely on: the bounds of the buffers behind them, and that the kernel gives no
-- descriptor twice.
use axiom_vm.Prelude.{ℕ, ◌≤◌, ◌≡◌, ◌≢◌, List, length}
use axiom_vm.Common.{ok}
use axiom_vm.Server.Services.{
  Services, ExecOptions, ExecResult, SymbolSlice, table, done, OpenFlags,
}

-- The AST engine's part: a table fits `ast_work_buf_`, and a slice of what fits `ast_file_buf_`
-- does too.
pub record AstFits {W : Type 0} (services : Services W) : Type 0 where
  pub symbols_fit :
      (path source : List ℕ) (count : ℕ) (text : List ℕ)
      → services.symbols path source ≡ table count text
      → length text ≤ 262144
  pub slice_fits :
      (path source symbol : List ℕ) (s : SymbolSlice)
      → length source ≤ 262144
      → services.slice path source symbol ≡ ok s
      → length s.content ≤ 262144

-- The contract of the services towards a client on the descriptor `d`.
pub record Bounded {W : Type 0} (services : Services W) (d : ℕ) : Type 0 where
  -- `exec_output_buf_` and `exec_diff_buf_`
  pub run_fits :
      (opts : ExecOptions) (w : W) (r : ExecResult)
      → (services.run opts w).0 ≡ ok r
      → (length r.output ≤ 65536) × (length r.diff ≤ 8192)
  pub ast_fits : AstFits services
  -- `cdp_tree_buf_`
  pub tree_fits :
      (w : W) (count : ℕ) (text : List ℕ)
      → (services.get_axtree w).0 ≡ ok (count, text)
      → length text ≤ 65536
  -- read(2) gives no more than it is asked for
  pub read_fits :
      (fd count : ℕ) (w : W) (bytes : List ℕ)
      → (services.sys_read fd count w).0 ≡ done bytes
      → length bytes ≤ count
  -- open(2) gives no descriptor that is open
  pub opens_other :
      (path : List ℕ) (flags : OpenFlags) (mode fd : ℕ) (w : W)
      → (services.sys_open path flags mode w).0 ≡ done fd
      → fd ≢ d
