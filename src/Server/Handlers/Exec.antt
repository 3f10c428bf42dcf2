-- ===== src/Server/Handlers/Exec.antt =====
-- `handle_exec` of include/axiom/server.hpp.
use axiom_vm.Prelude.{
  ℕ, ◌+◌, Bool, Option, List, [], ◌∷◌, if◌then◌else◌, ltb, ◌==◌, length, take, drop,
}
use axiom_vm.Common.{Result, ok, err}
use axiom_vm.Wire.Headers.{
  FrameHeader, ExecRequestHeader, ExecResponseHeader, exec_request_struct, exec_response_struct,
}
use axiom_vm.Wire.Codec.{sizeof, decode_exec_request, encode_exec_response}
use axiom_vm.Wire.Opcode.{Opcode}
use axiom_vm.Server.Slot.{Core}
use axiom_vm.Server.Services.{Services, ExecOptions, ExecResult}
use axiom_vm.Server.Reply.{with_request, u32, neg32, response_header, reply}

-- The bytes of "/tmp".
abbrev pub default_dir : List ℕ
default_dir = b'/' ∷ b't' ∷ b'm' ∷ b'p' ∷ []

unfoldable pub exec_options : ExecRequestHeader → List ℕ → ExecOptions
exec_options req payload =
    let cmd = take req.cmd_len (drop (sizeof exec_request_struct) payload) in
    let cwd = take req.cwd_len (drop req.cmd_len (drop (sizeof exec_request_struct) payload)) in
    record {
      command = cmd;
      working_dir = if length cwd == 0 then default_dir else cwd;
      timeout_ms = if ltb 0 req.timeout_ms then req.timeout_ms else 5000;
      flags = req.flags;
    }

unfoldable pub exec_response : Result ExecResult → ExecResponseHeader
exec_response (ok r) = record {
  exit_code = r.exit_code;
  flags = r.flags;
  cpu_cycles = r.cpu_cycles;
  output_len = u32 (length r.output);
  diff_len = u32 (length r.diff);
}
exec_response (err _) = record {
  exit_code = neg32 1;
  flags = 0;
  cpu_cycles = 0;
  output_len = 0;
  diff_len = 0;
}

-- The parts of the two buffers that follow the response header.
unfoldable pub exec_body : Result ExecResult → List (List ℕ)
exec_body (ok r) = take (u32 (length r.output)) r.output ∷ take (u32 (length r.diff)) r.diff ∷ []
exec_body (err _) = []

module _ {W : Type 0} (services : Services W) where
  unfoldable pub exec_reply : Option ℕ → FrameHeader → Result ExecResult → Core W → Bool × Core W
  unfolding exec_response exec_body response_header
  exec_reply fd header run_res core =
      let resp_hdr = exec_response run_res in
      let total_payload =
        u32 (sizeof exec_response_struct + resp_hdr.output_len + resp_hdr.diff_len) in
      reply fd (response_header header Opcode.exec_output total_payload)
        (sizeof exec_response_struct) (encode_exec_response resp_hdr) (exec_body run_res) core

  unfoldable pub handle_exec : Option ℕ → FrameHeader → List ℕ → Core W → Bool × Core W
  unfolding exec_reply exec_options
  handle_exec fd header payload core =
      with_request header.payload_len (sizeof exec_request_struct) (decode_exec_request payload)
        core (λ req. sizeof exec_request_struct + req.cmd_len + req.cwd_len)
        (λ req.
          let (run_res, world) = services.run (exec_options req payload) core.world in
          exec_reply fd header run_res (record core { world = world }))
