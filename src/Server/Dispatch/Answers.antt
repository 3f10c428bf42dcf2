-- ===== src/Server/Dispatch/Answers.antt =====
-- The handlers answer a request with one frame.
use axiom_vm.Prelude.{
  ℕ, ◌≤◌, ◌≡◌, refl, some, List, [], ◌∷◌, ◌++◌, arith, length, take, drop, length-append,
  length-take,
}
use axiom_vm.Common.{Result, ok, err}
use axiom_vm.Wire.Struct.{store}
use axiom_vm.Wire.Headers
use axiom_vm.Wire.Headers.{FrameHeader}
use axiom_vm.Wire.Codec
use axiom_vm.Wire.Codec.{sizeof}
use axiom_vm.Wire.Opcode.{Opcode, opcode_code}
use axiom_vm.Server.Slot.{Core}
use axiom_vm.Server.Services.{Services, ExecResult}
use axiom_vm.Server.Reply.{u32}
use axiom_vm.Server.Reply.Laws.{wire_of}
use axiom_vm.Server.Handlers.Exec.{exec_options, exec_response, exec_body, exec_reply, handle_exec}
use axiom_vm.Server.Handlers.Ast.{symbols_of, handle_ast_symbols, slice_of, handle_ast_slice}
use axiom_vm.Server.Handlers.Cdp.{cdp_action, handle_cdp}
use axiom_vm.Server.Handlers.Files.{read_response, handle_read_file}
use axiom_vm.Server.Dispatch.Contract.{Bounded}
use axiom_vm.Server.Dispatch.Fits.{
  symbols_of-fits, slice_of-fits, cdp_action-fits, read_response-fits,
}
use axiom_vm.Server.Dispatch.Responses.{Responded, with_request-Responded, struct_reply-Responded}

module _ {W : Type 0} (services : Services W) (d : ℕ) (bounded : Bounded services d) where
  exec_reply-Responded :
      (request : FrameHeader) (payload : List ℕ) (result : Result ExecResult) (before core : Core W)
      → request.opcode ≡ opcode_code Opcode.exec
      → ((r : ExecResult) → result ≡ ok r → (length r.output ≤ 65536) × (length r.diff ≤ 8192))
      → wire_of d core ≡ wire_of d before
      → Responded d request payload before (exec_reply services (some d) request result core)
  unfolding exec_reply Codec.encode_exec_response store exec_body exec_response
  exec_reply-Responded request payload (err x) before core is_req fits same =
      struct_reply-Responded d request payload before Headers.exec_response_struct
        (exec_response (err x)) Opcode.exec Opcode.exec_output _ _ [] core is_req refl refl
        (omega arith) same
  exec_reply-Responded request payload (ok r) before core is_req fits same =
      let output = take (u32 (length r.output)) r.output in
      let diff = take (u32 (length r.diff)) r.diff in
      struct_reply-Responded d request payload before Headers.exec_response_struct
        (exec_response (ok r)) Opcode.exec Opcode.exec_output _ _ (exec_body (ok r)) core is_req
        refl refl
        (omega (
          arith,
          fits r refl,
          length-append output (diff ++ []),
          length-append diff [],
          length-take (u32 (length r.output)) r.output,
          length-take (u32 (length r.diff)) r.diff,
        ))
        same

  pub handle_exec-Responded :
      (request : FrameHeader) (payload : List ℕ) (core : Core W)
      → request.opcode ≡ opcode_code Opcode.exec
      → Responded d request payload core (handle_exec services (some d) request payload core)
  unfolding handle_exec
  handle_exec-Responded request payload core is_req =
      with_request-Responded d request payload core Opcode.exec _ _ core _ _ is_req refl
        (λ req. omega arith) refl
        (λ req.
          let run = services.run (exec_options req payload) core.world in
          exec_reply-Responded request payload run.0 core (record core { world = run.1 }) is_req
            (bounded.run_fits (exec_options req payload) core.world) refl)

  pub handle_ast_symbols-Responded :
      (request : FrameHeader) (payload : List ℕ) (core : Core W)
      → request.opcode ≡ opcode_code Opcode.ast_symbols
      → Responded d request payload core (handle_ast_symbols services (some d) request payload core)
  unfolding handle_ast_symbols Codec.encode_ast_symbols_response store
  handle_ast_symbols-Responded request payload core is_req =
      with_request-Responded d request payload core Opcode.ast_symbols _ _ core _ _ is_req refl
        (λ req. omega arith) refl
        (λ req.
          let path = take req.path_len (drop (sizeof Headers.ast_symbols_request_struct) payload) in
          let (response, world) = symbols_of services path core.world in
          struct_reply-Responded d request payload core Headers.ast_symbols_response_struct
            response.0 Opcode.ast_symbols Opcode.ast_symbols_response _ _ (response.1 ∷ [])
            (record core { world = world }) is_req refl refl
            (omega (
              arith,
              symbols_of-fits services d bounded path core.world,
              length-append response.1 [],
            ))
            refl)

  pub handle_ast_slice-Responded :
      (request : FrameHeader) (payload : List ℕ) (core : Core W)
      → request.opcode ≡ opcode_code Opcode.ast_slice
      → Responded d request payload core (handle_ast_slice services (some d) request payload core)
  unfolding handle_ast_slice Codec.encode_ast_slice_response store
  handle_ast_slice-Responded request payload core is_req =
      with_request-Responded d request payload core Opcode.ast_slice _ _ core _ _ is_req refl
        (λ req. omega arith) refl
        (λ req.
          let names = drop (sizeof Headers.ast_slice_request_struct) payload in
          let path = take req.path_len names in
          let symbol = take req.symbol_len (drop req.path_len names) in
          let (response, world) = slice_of services path symbol core.world in
          struct_reply-Responded d request payload core Headers.ast_slice_response_struct response.0
            Opcode.ast_slice Opcode.ast_slice_response _ _ (response.1 ∷ [])
            (record core { world = world }) is_req refl refl
            (omega (
              arith,
              slice_of-fits services d bounded path symbol core.world,
              length-append response.1 [],
            ))
            refl)

  pub handle_cdp-Responded :
      (request : FrameHeader) (payload : List ℕ) (core : Core W)
      → request.opcode ≡ opcode_code Opcode.cdp_action
      → Responded d request payload core (handle_cdp services (some d) request payload core)
  unfolding handle_cdp Codec.encode_cdp_response store
  handle_cdp-Responded request payload core is_req =
      with_request-Responded d request payload core Opcode.cdp_action _ _ core _ _ is_req refl
        (λ req. omega arith) refl
        (λ req.
          let p1 = take req.payload1_len (drop (sizeof Headers.cdp_request_struct) payload) in
          let (response, world) = cdp_action services req p1 core.world in
          struct_reply-Responded d request payload core Headers.cdp_response_struct response.0
            Opcode.cdp_action Opcode.cdp_action_response _ _ (response.1 ∷ [])
            (record core { world = world }) is_req refl refl
            (omega (
              arith,
              cdp_action-fits services d bounded req p1 core.world,
              length-append response.1 [],
            ))
            refl)

  pub handle_read_file-Responded :
      (request : FrameHeader) (payload : List ℕ) (core : Core W)
      → request.opcode ≡ opcode_code Opcode.read_file
      → Responded d request payload core (handle_read_file services (some d) request payload core)
  unfolding handle_read_file Codec.encode_read_file_response store
  handle_read_file-Responded request payload core is_req =
      with_request-Responded d request payload core Opcode.read_file _ _ core _ _ is_req refl
        (λ req. omega arith) refl
        (λ req.
          let path = take req.path_len (drop (sizeof Headers.read_file_request_struct) payload) in
          let (response, world) = read_response services path req core.world in
          struct_reply-Responded d request payload core Headers.read_file_response_struct response.0
            Opcode.read_file Opcode.read_file_response _ _ (response.1 ∷ [])
            (record core { world = world }) is_req refl refl
            (omega (
              arith,
              read_response-fits services d bounded path req core.world,
              length-append response.1 [],
            ))
            refl)
