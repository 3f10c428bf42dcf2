-- ===== src/Server/Dispatch/Unmoved.antt =====
-- The handlers leave `running_` as it was, whatever the components behind them answer.
use axiom_vm.Prelude.{
  ℕ, ◌+◌, ◌≡◌, refl, ◌∙◌, inl, inr, Bool, Option, none, some, List, [], ◌∷◌, Bool-cases,
  if◌then◌else◌, ltb, ◌==◌, length, take, drop, replicate, ◌%◌, ◌++◌,
}
use axiom_vm.Common.{Result, ok, err, Result-cases}
use axiom_vm.Wire.Headers.{FrameHeader, WriteFileRequestHeader}
use axiom_vm.Wire.Headers
use axiom_vm.Wire.Codec.{sizeof, header_size, encode_header}
use axiom_vm.Wire.Opcode.{Opcode}
use axiom_vm.Server.Slot.{Core}
use axiom_vm.Server.Services.{Services, Sys, PatchResult, Sys-cases, append, trunc}
use axiom_vm.Server.Reply.{response_header, send, send_parts, reply, with_request}
use axiom_vm.Server.Handlers.Exec.{exec_reply, handle_exec}
use axiom_vm.Server.Handlers.Ast.{
  handle_ast_symbols, handle_ast_slice, handle_ast_patch, patch_of, write_patched,
}
use axiom_vm.Server.Handlers.Cdp.{handle_cdp}
use axiom_vm.Server.Handlers.Files.{
  handle_read_file, handle_write_file, write_response, write_file, write_open, read_file,
  is_usable_path, c_string, make_parents, file_buffer_capacity,
}
use axiom_vm.Server.Dispatch.{handle_ping}

module _ {W : Type 0} where
  send-running :
      (fd : Option ℕ) (bytes : List ℕ) (core : Core W)
      → (send fd bytes core).1.running ≡ core.running
  unfolding send
  send-running none bytes core = refl
  send-running (some fd) bytes core = refl

  send_parts-running :
      (parts : List (List ℕ)) (fd : Option ℕ) (core : Core W)
      → (send_parts fd parts core).1.running ≡ core.running
  unfolding send_parts
  send_parts-running [] fd core = refl
  send_parts-running ([] ∷ parts) fd core = send_parts-running parts fd core
  send_parts-running ((b ∷ bs) ∷ parts) fd core = elim (Bool-cases (send fd (b ∷ bs) core).0) [
    | inl e ↦
        rw e (send_parts-running parts fd (send fd (b ∷ bs) core).1 ∙ send-running fd (b ∷ bs) core)
    | inr e ↦ rw e (send-running fd (b ∷ bs) core)
  ]

  reply-running :
      (fd : Option ℕ) (h : FrameHeader) (n : ℕ) (enc : List ℕ → Result (ℕ × List ℕ))
      (body : List (List ℕ)) (core : Core W)
      → (reply fd h n enc body core).1.running ≡ core.running
  unfolding reply
  reply-running fd h n enc body core =
      elim (Result-cases (encode_header h (replicate header_size 0))) [
        | inr (x, e) ↦ rw (reply, e) refl
        | inl (front, e) ↦
            rw (reply, e)
              (elim (Result-cases (enc (replicate n 0))) [
                | inr (x, d) ↦ rw d refl
                | inl (back, d) ↦ rw d (send_parts-running ((front.1 ++ back.1) ∷ body) fd core)
              ])
      ]

  pub handle_ping-running :
      (fd : Option ℕ) (h : FrameHeader) (core : Core W)
      → (handle_ping fd h core).1.running ≡ core.running
  unfolding handle_ping
  handle_ping-running fd h core =
      elim (Result-cases
        (encode_header (response_header h Opcode.pong 0) (replicate header_size 0))) [
          | inr (x, e) ↦ rw (handle_ping, e) refl
          | inl (front, e) ↦ rw (handle_ping, e) (send-running fd _ core)
        ]

module _ {W : Type 0} {R : Type 0} where
  with_request-running :
      (payload_len header_len : ℕ) (request : Result R) (core : Core W) (needed : R → ℕ)
      (answer : R → Bool × Core W)
      → ((req : R) → (answer req).1.running ≡ core.running)
      → (with_request payload_len header_len request core needed answer).1.running ≡ core.running
  unfolding with_request
  with_request-running payload_len header_len (err x) core needed answer h =
      elim (Bool-cases (ltb payload_len header_len)) [ inl e ↦ rw e refl | inr e ↦ rw e refl ]
  with_request-running payload_len header_len (ok req) core needed answer h =
      elim (Bool-cases (ltb payload_len header_len)) [
        | inl e ↦ rw e refl
        | inr e ↦ elim (Bool-cases (ltb payload_len (needed req))) [
          | inl d ↦ rw (e, d) refl
          | inr d ↦ rw (e, d) (h req)
        ]
      ]

module _ {W : Type 0} (services : Services W) where
  pub handle_exec-running :
      (fd : Option ℕ) (h : FrameHeader) (payload : List ℕ) (core : Core W)
      → (handle_exec services fd h payload core).1.running ≡ core.running
  unfolding handle_exec exec_reply
  handle_exec-running fd h payload core =
      with_request-running _ _ _ core _ _ (λ req. reply-running fd _ _ _ _ _)

  pub handle_ast_symbols-running :
      (fd : Option ℕ) (h : FrameHeader) (payload : List ℕ) (core : Core W)
      → (handle_ast_symbols services fd h payload core).1.running ≡ core.running
  unfolding handle_ast_symbols
  handle_ast_symbols-running fd h payload core =
      with_request-running _ _ _ core _ _ (λ req. reply-running fd _ _ _ _ _)

  pub handle_ast_slice-running :
      (fd : Option ℕ) (h : FrameHeader) (payload : List ℕ) (core : Core W)
      → (handle_ast_slice services fd h payload core).1.running ≡ core.running
  unfolding handle_ast_slice
  handle_ast_slice-running fd h payload core =
      with_request-running _ _ _ core _ _ (λ req. reply-running fd _ _ _ _ _)

  pub handle_cdp-running :
      (fd : Option ℕ) (h : FrameHeader) (payload : List ℕ) (core : Core W)
      → (handle_cdp services fd h payload core).1.running ≡ core.running
  unfolding handle_cdp
  handle_cdp-running fd h payload core =
      with_request-running _ _ _ core _ _ (λ req. reply-running fd _ _ _ _ _)

  pub handle_read_file-running :
      (fd : Option ℕ) (h : FrameHeader) (payload : List ℕ) (core : Core W)
      → (handle_read_file services fd h payload core).1.running ≡ core.running
  unfolding handle_read_file
  handle_read_file-running fd h payload core =
      with_request-running _ _ _ core _ _ (λ req. reply-running fd _ _ _ _ _)

  write_open-running :
      (fd : ℕ) (content : List ℕ) (core : Core W)
      → (write_open services fd content core).1.running ≡ core.running
  unfolding write_open
  write_open-running fd content core = elim (Bool-cases (ltb 0 (length content))) [
    | inl e ↦ rw e refl
    | inr e ↦ rw e refl
  ]

  -- What a write request does to the file leaves the flag alone.
  write_response-running :
      (path content : List ℕ) (req : WriteFileRequestHeader) (core : Core W)
      → (write_response services path content req core).1.running ≡ core.running
  unfolding write_response
  write_response-running path content req core = elim (Bool-cases (is_usable_path path)) [
    | inr e ↦ rw e refl
    | inl e ↦ rw e (elim (Sys-cases (opened path req core).0) [
      | inr (errno, d) ↦ rw d refl
      | inl (fd, d) ↦
          rw d (write_open-running fd content (record core { world = (opened path req core).1 }))
    ])
  ]
    where
      opened : List ℕ → WriteFileRequestHeader → Core W → Sys ℕ × W
      opened path req core =
          services.sys_open (c_string path) (if req.flags % 2 == 1 then append else trunc)
            (if req.mode == 0 then 0o644 else req.mode)
            (make_parents services (take 1 path) (drop 1 path) core.world)

  pub handle_write_file-running :
      (fd : Option ℕ) (h : FrameHeader) (payload : List ℕ) (core : Core W)
      → (handle_write_file services fd h payload core).1.running ≡ core.running
  unfolding handle_write_file
  handle_write_file-running fd h payload core = with_request-running _ _ _ core _ _ (λ req.
      reply-running fd _ _ _ _ _
      ∙ write_response-running
          (take req.path_len (drop (sizeof Headers.write_file_request_struct) payload))
          (take req.content_len
            (drop (sizeof Headers.write_file_request_struct + req.path_len) payload))
          req core)

  write_file-running :
      (path content : List ℕ) (core : Core W)
      → (write_file services path content core).1.running ≡ core.running
  unfolding write_file
  write_file-running path content core = elim (Bool-cases (is_usable_path path)) [
    | inr e ↦ rw e refl
    | inl e ↦ rw e (elim (Sys-cases (services.sys_open (c_string path) trunc 0o644 core.world).0) [
      | inr (errno, d) ↦ rw d refl
      | inl (fd, d) ↦ rw d refl
    ])
  ]

  write_patched-running :
      (path : List ℕ) (patched : Result PatchResult) (core : Core W)
      → (write_patched services path patched core).1.running ≡ core.running
  unfolding write_patched
  write_patched-running path (err x) core = refl
  write_patched-running path (ok p) core =
      elim (Result-cases (write_file services path p.text core).0) [
        | inl (u, e) ↦ rw (write_patched, e) (write_file-running path p.text core)
        | inr (x, e) ↦ rw (write_patched, e) (write_file-running path p.text core)
      ]

  patch_of-running :
      (path symbol replacement : List ℕ) (core : Core W)
      → (patch_of services path symbol replacement core).1.running ≡ core.running
  unfolding patch_of
  patch_of-running path symbol replacement core =
      elim (Result-cases (read_file services path file_buffer_capacity core.world).0) [
        | inr (x, e) ↦ rw (patch_of, e) refl
        | inl (source, e) ↦
            rw (patch_of, e)
              (elim (Bool-cases (services.known_language path)) [
                | inl d ↦ rw d (write_patched-running path _ _)
                | inr d ↦ rw d refl
              ])
      ]

  pub handle_ast_patch-running :
      (fd : Option ℕ) (h : FrameHeader) (payload : List ℕ) (core : Core W)
      → (handle_ast_patch services fd h payload core).1.running ≡ core.running
  unfolding handle_ast_patch
  handle_ast_patch-running fd h payload core = with_request-running _ _ _ core _ _ (λ req.
      reply-running fd _ _ _ _ _
      ∙ let names = drop (sizeof Headers.ast_patch_request_struct) payload in
        patch_of-running (take req.path_len names) (take req.symbol_len (drop req.path_len names))
          (take req.replacement_len (drop req.symbol_len (drop req.path_len names))) core)
