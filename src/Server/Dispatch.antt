-- ===== src/Server/Dispatch.antt =====
-- The `switch` of `dispatch_frame` of include/axiom/server.hpp over the opcode.
pub mod Unmoved
pub mod Running
pub mod Responses
pub mod Contract
pub mod Fits
pub mod Answers
pub mod Writes
pub mod Respond
pub mod Session
pub mod Ends
use axiom_vm.Prelude.{
  ℕ, ◌+◌, Bool, true, false, Option, List, [], ◌∷◌, if◌then◌else◌, ◌==◌, replicate,
}
use axiom_vm.Common.{ok, err}
use axiom_vm.Wire.Headers.{FrameHeader}
use axiom_vm.Wire.Codec.{header_size, encode_header}
use axiom_vm.Wire.Opcode.{Opcode, opcode_code}
use axiom_vm.Server.Slot.{Core}
use axiom_vm.Server.Services.{Services}
use axiom_vm.Server.Reply.{response_header, send}
use axiom_vm.Server.Handlers.Exec.{handle_exec}
use axiom_vm.Server.Handlers.Ast.{handle_ast_symbols, handle_ast_slice, handle_ast_patch}
use axiom_vm.Server.Handlers.Cdp.{handle_cdp}
use axiom_vm.Server.Handlers.Files.{handle_read_file, handle_write_file}

module _ {W : Type 0} where
  -- the case of `Opcode::Ping`
  unfoldable pub handle_ping : Option ℕ → FrameHeader → Core W → Bool × Core W
  unfolding send response_header
  handle_ping fd header core =
      elim (encode_header (response_header header Opcode.pong 0) (replicate header_size 0)) [
        | err _ ↦ (true, core)
        | ok (_, tx_buf) ↦ send fd tx_buf core
      ]

  -- the case of `Opcode::Shutdown`
  unfoldable pub handle_shutdown : Core W → Bool × Core W
  handle_shutdown core = (true, record core { running = false })

module _ {W : Type 0} (services : Services W) where
  unfoldable pub dispatch : Option ℕ → FrameHeader → List ℕ → Core W → Bool × Core W
  unfolding handle_ping handle_shutdown opcode_code
  dispatch fd header payload core =
      if header.opcode == opcode_code Opcode.ping
      then handle_ping fd header core
      else if header.opcode == opcode_code Opcode.exec
      then handle_exec services fd header payload core
      else if header.opcode == opcode_code Opcode.ast_symbols
      then handle_ast_symbols services fd header payload core
      else if header.opcode == opcode_code Opcode.ast_slice
      then handle_ast_slice services fd header payload core
      else if header.opcode == opcode_code Opcode.ast_patch
      then handle_ast_patch services fd header payload core
      else if header.opcode == opcode_code Opcode.cdp_action
      then handle_cdp services fd header payload core
      else if header.opcode == opcode_code Opcode.read_file
      then handle_read_file services fd header payload core
      else if header.opcode == opcode_code Opcode.write_file
      then handle_write_file services fd header payload core
      else if header.opcode == opcode_code Opcode.shutdown
      then handle_shutdown core
      else (true, core)
