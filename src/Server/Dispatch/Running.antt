-- ===== src/Server/Dispatch/Running.antt =====
-- Which requests stop the server: none of the handlers touches `running_`, save that of Shutdown.
use axiom_vm.Prelude.{
  ℕ, ◌≡◌, ◌≢◌, refl, inl, inr, Bool, true, false, Option, List, Bool-cases, ==→eq, ==→ne,
  if◌then◌else◌, ◌==◌,
}
use axiom_vm.Wire.Headers.{FrameHeader}
use axiom_vm.Wire.Opcode.{Opcode, opcode_code}
use axiom_vm.Server.Slot.{Core}
use axiom_vm.Server.Services.{Services}
use axiom_vm.Server.Handlers.Exec.{handle_exec}
use axiom_vm.Server.Handlers.Ast.{handle_ast_symbols, handle_ast_slice, handle_ast_patch}
use axiom_vm.Server.Handlers.Cdp.{handle_cdp}
use axiom_vm.Server.Handlers.Files.{handle_read_file, handle_write_file}
use axiom_vm.Server.Dispatch.{dispatch, handle_ping, handle_shutdown}
use axiom_vm.Server.Dispatch.Unmoved.{
  handle_ping-running, handle_exec-running, handle_ast_symbols-running, handle_ast_slice-running,
  handle_cdp-running, handle_read_file-running, handle_write_file-running, handle_ast_patch-running,
}

record Kept {W : Type 0} (running : Bool) (out : Bool × Core W) : Type 0 where
  same : out.1.running ≡ running

by_case :
    {W : Type 0} {running : Bool} (test : Bool) (x y : Bool × Core W)
    → x.1.running ≡ running
    → Kept running y
    → Kept running (if test then x else y)
by_case true x y p q = record { same = p }
by_case false x y p q = q

by_else :
    {W : Type 0} {running : Bool} (test : Bool) (x y : Bool × Core W)
    → test ≡ false
    → y.1.running ≡ running
    → Kept running (if test then x else y)
by_else test x y e q = rw e (record { same = q })

-- What a request of an opcode does to `running_`.
pub data Stops {W : Type 0} (opcode : ℕ) (running : Bool) : Bool × Core W → Type 0 where
  shuts :
      {out : Bool × Core W}
      → opcode ≡ opcode_code Opcode.shutdown
      → (out.0 ≡ true) × (out.1.running ≡ false)
      → Stops opcode running out
  stays :
      {out : Bool × Core W}
      → opcode ≢ opcode_code Opcode.shutdown
      → out.1.running ≡ running
      → Stops opcode running out

module _ {W : Type 0} (services : Services W) where
  shutdown_stops :
      (fd : Option ℕ) (header : FrameHeader) (payload : List ℕ) (core : Core W)
      → header.opcode ≡ opcode_code Opcode.shutdown
      → dispatch services fd header payload core ≡ (true, record core { running = false })
  unfolding dispatch opcode_code
  shutdown_stops fd header payload core e = rw (dispatch, e) refl

  others_stay :
      (fd : Option ℕ) (header : FrameHeader) (payload : List ℕ) (core : Core W)
      → (header.opcode == opcode_code Opcode.shutdown) ≡ false
      → Kept core.running (dispatch services fd header payload core)
  unfolding dispatch
  others_stay fd header payload core e =
      by_case (is Opcode.ping) (handle_ping fd header core) _ (handle_ping-running fd header core) (
        by_case (is Opcode.exec) (handle_exec services fd header payload core) _
          (handle_exec-running services fd header payload core)
          (by_case (is Opcode.ast_symbols) (handle_ast_symbols services fd header payload core) _
            (handle_ast_symbols-running services fd header payload core)
            (by_case (is Opcode.ast_slice) (handle_ast_slice services fd header payload core) _
              (handle_ast_slice-running services fd header payload core)
              (by_case (is Opcode.ast_patch) (handle_ast_patch services fd header payload core) _
                (handle_ast_patch-running services fd header payload core)
                (by_case (is Opcode.cdp_action) (handle_cdp services fd header payload core) _
                  (handle_cdp-running services fd header payload core)
                  (by_case (is Opcode.read_file) (handle_read_file services fd header payload core)
                    _ (handle_read_file-running services fd header payload core)
                    (by_case (is Opcode.write_file)
                      (handle_write_file services fd header payload core) _
                      (handle_write_file-running services fd header payload core)
                      (by_else (is Opcode.shutdown) (handle_shutdown core) (true, core) e
                        refl))))))))
    where
      is : Opcode → Bool
      is op = header.opcode == opcode_code op

  -- A request ends the server exactly if its opcode is that of Shutdown: a Shutdown request clears
  -- `running_` and succeeds, and every other one, known or not, well formed or not, and whatever
  -- the components behind the handlers answer, leaves `running_` as it was.
  pub dispatch-running :
      (fd : Option ℕ) (header : FrameHeader) (payload : List ℕ) (core : Core W)
      → Stops header.opcode core.running (dispatch services fd header payload core)
  dispatch-running fd header payload core =
      elim (Bool-cases (header.opcode == opcode_code Opcode.shutdown)) [
        | inl e ↦
            shuts (==→eq _ _ e)
              (let s = shutdown_stops fd header payload core (==→eq _ _ e) in rw s (refl, refl))
        | inr e ↦ stays (==→ne _ _ e) (others_stay fd header payload core e).same
      ]
