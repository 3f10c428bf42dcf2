-- ===== src/Server/Dispatch/Writes.antt =====
-- The requests that write a file send nothing to the client but their response.
use axiom_vm.Prelude.{
  ℕ, ◌+◌, ◌%◌, ◌≡◌, ◌≢◌, refl, ap, ◌∙◌, some, List, [], ◌∷◌, ◌++◌, arith, length, take, drop,
  if◌then◌else◌, ltb, ◌==◌, Bool-cases, inl, inr, append-nil, ==→eq,
}
use axiom_vm.Common.{Result, ok, err, Result-cases}
use axiom_vm.Wire.Struct.{store}
use axiom_vm.Wire.Headers
use axiom_vm.Wire.Headers.{FrameHeader, WriteFileRequestHeader}
use axiom_vm.Wire.Codec
use axiom_vm.Wire.Codec.{sizeof}
use axiom_vm.Wire.Opcode.{Opcode, opcode_code}
use axiom_vm.Server.Os.{Os, sent, write_all, write_loop, record_event}
use axiom_vm.Server.Slot.{Core}
use axiom_vm.Server.Services.{Services, PatchResult, Sys, Sys-cases, trunc, append, OpenFlags}
use axiom_vm.Server.Reply.Laws.{sent_on, sent_on-append, wire_of}
use axiom_vm.Server.Handlers.Ast.{write_patched, patch_of, handle_ast_patch}
use axiom_vm.Server.Handlers.Files.{
  is_usable_path, c_string, file_buffer_capacity, read_file, write_file, write_open, make_parents,
  write_response, handle_write_file,
}
use axiom_vm.Server.Dispatch.Contract.{Bounded}
use axiom_vm.Server.Dispatch.Responses.{Responded, with_request-Responded, struct_reply-Responded}

-- A write on another descriptor.
write_all-other :
    (d fd : ℕ) (bytes : List ℕ) (os : Os)
    → fd ≢ d
    → sent_on d (write_all fd bytes os).1.trace ≡ sent_on d os.trace
unfolding write_all record_event
write_all-other d fd bytes os other =
    sent_on-append d os.trace (sent fd (write_loop bytes os.answers).1 ∷ [])
    ∙ ap (◌++◌ (sent_on d os.trace)) passed
    ∙ append-nil (sent_on d os.trace)
  where
    passed : sent_on d (sent fd (write_loop bytes os.answers).1 ∷ []) ≡ []
    passed = elim (Bool-cases (fd == d)) [
      | inl e ↦ absurd (other (==→eq _ _ e))
      | inr e ↦ rw e refl
    ]

module _ {W : Type 0} (services : Services W) (d : ℕ) (bounded : Bounded services d) where
  write_open-other :
      (fd : ℕ) (content : List ℕ) (core : Core W)
      → fd ≢ d
      → wire_of d (write_open services fd content core).1 ≡ wire_of d core
  unfolding write_open
  write_open-other fd content core other = elim (Bool-cases (ltb 0 (length content))) [
    | inl e ↦ rw e (write_all-other d fd content core.os other)
    | inr e ↦ rw e refl
  ]

  write_response-other :
      (path content : List ℕ) (req : WriteFileRequestHeader) (core : Core W)
      → wire_of d (write_response services path content req core).1 ≡ wire_of d core
  unfolding write_response
  write_response-other path content req core = elim (Bool-cases (is_usable_path path)) [
    | inr e ↦ rw e refl
    | inl e ↦ rw e (elim (Sys-cases opened.0) [
      | inr (errno, f) ↦ rw f refl
      | inl (fd, f) ↦ rw f (
          write_open-other fd content (record core { world = opened.1 })
            (bounded.opens_other (c_string path) flags mode fd parents f))
    ])
  ]
    where
      flags : OpenFlags
      flags = if req.flags % 2 == 1 then append else trunc

      mode : ℕ
      mode = if req.mode == 0 then 0o644 else req.mode

      parents : W
      parents = make_parents services (take 1 path) (drop 1 path) core.world

      opened : Sys ℕ × W
      opened = services.sys_open (c_string path) flags mode parents

  write_file-other :
      (path content : List ℕ) (core : Core W)
      → wire_of d (write_file services path content core).1 ≡ wire_of d core
  unfolding write_file
  write_file-other path content core = elim (Bool-cases (is_usable_path path)) [
    | inr e ↦ rw e refl
    | inl e ↦ rw e (elim (Sys-cases (services.sys_open (c_string path) trunc 0o644 core.world).0) [
      | inr (errno, f) ↦ rw f refl
      | inl (fd, f) ↦ rw f (
          write_all-other d fd content core.os
            (bounded.opens_other (c_string path) trunc 0o644 fd core.world f))
    ])
  ]

  write_patched-other :
      (path : List ℕ) (patched : Result PatchResult) (core : Core W)
      → wire_of d (write_patched services path patched core).1 ≡ wire_of d core
  unfolding write_patched
  write_patched-other path (err x) core = refl
  write_patched-other path (ok p) core =
      elim (Result-cases (write_file services path p.text core).0) [
        | inl (u, e) ↦ rw (write_patched, e) (write_file-other path p.text core)
        | inr (x, e) ↦ rw (write_patched, e) (write_file-other path p.text core)
      ]

  patch_of-other :
      (path symbol replacement : List ℕ) (core : Core W)
      → wire_of d (patch_of services path symbol replacement core).1 ≡ wire_of d core
  unfolding patch_of
  patch_of-other path symbol replacement core =
      elim (Result-cases (read_file services path file_buffer_capacity core.world).0) [
        | inr (x, e) ↦ rw (patch_of, e) refl
        | inl (source, e) ↦
            rw (patch_of, e)
              (elim (Bool-cases (services.known_language path)) [
                | inl k ↦ rw k (
                    write_patched-other path (services.patch path source symbol replacement)
                      (record core {
                        world = (read_file services path file_buffer_capacity core.world).1;
                      }))
                | inr k ↦ rw k refl
              ])
      ]

  pub handle_write_file-Responded :
      (request : FrameHeader) (payload : List ℕ) (core : Core W)
      → request.opcode ≡ opcode_code Opcode.write_file
      → Responded d request payload core (handle_write_file services (some d) request payload core)
  unfolding handle_write_file Codec.encode_write_file_response store
  handle_write_file-Responded request payload core is_req =
      with_request-Responded d request payload core Opcode.write_file _ _ core _ _ is_req refl
        (λ req. omega arith) refl
        (λ req.
          let path = take req.path_len (drop (sizeof Headers.write_file_request_struct) payload) in
          let content =
            take req.content_len
              (drop (sizeof Headers.write_file_request_struct + req.path_len) payload) in
          let (resp_hdr, core') = write_response services path content req core in
          struct_reply-Responded d request payload core Headers.write_file_response_struct resp_hdr
            Opcode.write_file Opcode.write_file_response _ _ [] core' is_req refl refl (omega arith)
            (write_response-other path content req core))

  pub handle_ast_patch-Responded :
      (request : FrameHeader) (payload : List ℕ) (core : Core W)
      → request.opcode ≡ opcode_code Opcode.ast_patch
      → Responded d request payload core (handle_ast_patch services (some d) request payload core)
  unfolding handle_ast_patch Codec.encode_ast_patch_response store
  handle_ast_patch-Responded request payload core is_req =
      with_request-Responded d request payload core Opcode.ast_patch _ _ core _ _ is_req refl
        (λ req. omega arith) refl
        (λ req.
          let names = drop (sizeof Headers.ast_patch_request_struct) payload in
          let after_path = drop req.path_len names in
          let path = take req.path_len names in
          let symbol = take req.symbol_len after_path in
          let replacement = take req.replacement_len (drop req.symbol_len after_path) in
          let (resp_hdr, core') = patch_of services path symbol replacement core in
          struct_reply-Responded d request payload core Headers.ast_patch_response_struct resp_hdr
            Opcode.ast_patch Opcode.ast_patch_response _ _ [] core' is_req refl refl (omega arith)
            (patch_of-other path symbol replacement core))
