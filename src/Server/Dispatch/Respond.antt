-- ===== src/Server/Dispatch/Respond.antt =====
-- What `dispatch_frame` sends to the client for any request.
use axiom_vm.Prelude.{
  ℕ, ◌≡◌, ◌≢◌, refl, Bool, true, Option, some, List, [], append-nil, if◌then◌else◌, ◌==◌, subst,
  sym,
}
use axiom_vm.Wire.Headers.{FrameHeader}
use axiom_vm.Wire.Opcode.{Opcode, opcode_code}
use axiom_vm.Server.Slot.{Core}
use axiom_vm.Server.Services.{Services}
use axiom_vm.Server.Frames.Stream.{header_bytes}
use axiom_vm.Server.Reply.{response_header, send}
use axiom_vm.Server.Reply.Laws.{Sent, send-Sent, encode_header-zeros}
use axiom_vm.Server.Handlers.Exec.{handle_exec}
use axiom_vm.Server.Handlers.Ast.{handle_ast_symbols, handle_ast_slice, handle_ast_patch}
use axiom_vm.Server.Handlers.Cdp.{handle_cdp}
use axiom_vm.Server.Handlers.Files.{handle_read_file, handle_write_file}
use axiom_vm.Server.Dispatch.{dispatch, handle_ping, handle_shutdown}
use axiom_vm.Server.Dispatch.Contract.{Bounded}
use axiom_vm.Server.Dispatch.Responses.{
  Responded, silent, answered, by_opcode, response_to, no_request,
}
use axiom_vm.Server.Dispatch.Answers.{
  handle_exec-Responded, handle_ast_symbols-Responded, handle_ast_slice-Responded,
  handle_cdp-Responded, handle_read_file-Responded,
}
use axiom_vm.Server.Dispatch.Writes.{handle_write_file-Responded, handle_ast_patch-Responded}

module _ {W : Type 0} (d : ℕ) where
  handle_ping-Responded :
      (request : FrameHeader) (payload : List ℕ) (core : Core W)
      → request.opcode ≡ opcode_code Opcode.ping
      → Responded d request payload core (handle_ping (some d) request core)
  unfolding handle_ping
  handle_ping-Responded request payload core is_req =
      answered Opcode.ping Opcode.pong [] is_req refl (
        rw (handle_ping, encode_header-zeros (response_header request Opcode.pong 0))
          (subst (λ bytes. Sent d bytes core (send (some d) (header_bytes pong) core))
            (sym (append-nil (header_bytes pong))) (send-Sent d (header_bytes pong) core)))
    where
      pong : FrameHeader
      pong = response_header request Opcode.pong 0

-- An opcode that is of none of the eight requests has no response.
none_of :
    (request : FrameHeader)
    → request.opcode ≢ opcode_code Opcode.ping
    → request.opcode ≢ opcode_code Opcode.exec
    → request.opcode ≢ opcode_code Opcode.ast_symbols
    → request.opcode ≢ opcode_code Opcode.ast_slice
    → request.opcode ≢ opcode_code Opcode.ast_patch
    → request.opcode ≢ opcode_code Opcode.cdp_action
    → request.opcode ≢ opcode_code Opcode.read_file
    → request.opcode ≢ opcode_code Opcode.write_file
    → (req op : Opcode) → response_to req ≡ some op
    → request.opcode ≢ opcode_code req
none_of request n1 n2 n3 n4 n5 n6 n7 n8 Opcode.ping op e = n1
none_of request n1 n2 n3 n4 n5 n6 n7 n8 Opcode.exec op e = n2
none_of request n1 n2 n3 n4 n5 n6 n7 n8 Opcode.ast_symbols op e = n3
none_of request n1 n2 n3 n4 n5 n6 n7 n8 Opcode.ast_slice op e = n4
none_of request n1 n2 n3 n4 n5 n6 n7 n8 Opcode.ast_patch op e = n5
none_of request n1 n2 n3 n4 n5 n6 n7 n8 Opcode.cdp_action op e = n6
none_of request n1 n2 n3 n4 n5 n6 n7 n8 Opcode.read_file op e = n7
none_of request n1 n2 n3 n4 n5 n6 n7 n8 Opcode.write_file op e = n8
none_of request n1 n2 n3 n4 n5 n6 n7 n8 _ op e = cc

module _ {W : Type 0} (services : Services W) where
  -- For a request of a connected client, with services that keep to their buffers and a kernel that
  -- gives no descriptor twice, `dispatch` puts exactly one frame on the client's descriptor: the
  -- opcode is that of the response to the request's opcode, the request id is the request's, the
  -- stated length is that of the payload, and the frame is on the wire in full exactly if `dispatch`
  -- says that the writes succeeded, in a proper part otherwise. Only a request whose opcode has no
  -- response, or whose payload does not decode or is shorter than it states, may stay without one;
  -- then nothing is put on the descriptor, and `dispatch` says that no write failed.
  pub dispatch-Responded :
      (d : ℕ) (request : FrameHeader) (payload : List ℕ) (core : Core W)
      → Bounded services d
      → Responded d request payload core (dispatch services (some d) request payload core)
  unfolding dispatch
  dispatch-Responded d request payload core bounded =
      test Opcode.ping (handle_ping fd request core) _
        (handle_ping-Responded d request payload core)
        (λ n1.
          test Opcode.exec (handle_exec services fd request payload core) _
            (handle_exec-Responded services d bounded request payload core)
            (λ n2.
              test Opcode.ast_symbols (handle_ast_symbols services fd request payload core) _
                (handle_ast_symbols-Responded services d bounded request payload core)
                (λ n3.
                  test Opcode.ast_slice (handle_ast_slice services fd request payload core) _
                    (handle_ast_slice-Responded services d bounded request payload core)
                    (λ n4.
                      test Opcode.ast_patch (handle_ast_patch services fd request payload core) _
                        (handle_ast_patch-Responded services d bounded request payload core)
                        (λ n5.
                          test Opcode.cdp_action (handle_cdp services fd request payload core) _
                            (handle_cdp-Responded services d bounded request payload core)
                            (λ n6.
                              test Opcode.read_file
                                (handle_read_file services fd request payload core) _
                                (handle_read_file-Responded services d bounded request payload core)
                                (λ n7.
                                  test Opcode.write_file
                                    (handle_write_file services fd request payload core) _
                                    (handle_write_file-Responded services d bounded request payload
                                      core)
                                    (λ n8.
                                      let nothing =
                                        no_request (none_of request n1 n2 n3 n4 n5 n6 n7 n8) in
                                      test Opcode.shutdown (handle_shutdown core) (true, core)
                                        (λ _. silent nothing refl refl)
                                        (λ _. silent nothing refl refl)))))))))
    where
      fd : Option ℕ
      fd = some d

      test :
          (req : Opcode) (x y : Bool × Core W)
          → (request.opcode ≡ opcode_code req → Responded d request payload core x)
          → (request.opcode ≢ opcode_code req → Responded d request payload core y)
          → Responded d request payload core (if request.opcode == opcode_code req then x else y)
      test = by_opcode d request payload core
