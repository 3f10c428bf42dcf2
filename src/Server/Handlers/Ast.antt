-- ===== src/Server/Handlers/Ast.antt =====
-- `handle_ast_symbols`, `handle_ast_slice` and `handle_ast_patch` of include/axiom/server.hpp.
use axiom_vm.Prelude.{ℕ, ◌+◌, Bool, Option, List, [], ◌∷◌, if◌then◌else◌, length, take, drop}
use axiom_vm.Common.{Result, ok, err}
use axiom_vm.Wire.Headers.{
  FrameHeader, AstSymbolsResponseHeader, AstSliceResponseHeader, AstPatchResponseHeader,
  ast_symbols_request_struct, ast_symbols_response_struct, ast_slice_request_struct,
  ast_slice_response_struct, ast_patch_request_struct, ast_patch_response_struct,
}
use axiom_vm.Wire.Codec.{
  sizeof, decode_ast_symbols_request, encode_ast_symbols_response, decode_ast_slice_request,
  encode_ast_slice_response, decode_ast_patch_request, encode_ast_patch_response,
}
use axiom_vm.Wire.Opcode.{Opcode}
use axiom_vm.Server.Slot.{Core}
use axiom_vm.Server.Services.{
  Services, SymbolSlice, PatchResult, Symbols, not_extracted, not_formatted, table,
}
use axiom_vm.Server.Reply.{with_request, u32, neg32, response_header, reply}
use axiom_vm.Server.Handlers.Files.{read_file, write_file, file_buffer_capacity}

unfoldable pub symbols_response : Symbols → AstSymbolsResponseHeader × List ℕ
symbols_response not_extracted =
    (record { status = neg32 3; symbol_count = 0; payload_len = 0 }, [])
symbols_response (not_formatted _) =
    (record { status = neg32 4; symbol_count = 0; payload_len = 0 }, [])
symbols_response (table count text) =
    (record { status = 0; symbol_count = u32 count; payload_len = u32 (length text) }, text)

unfoldable pub symbols_failure : ℕ → AstSymbolsResponseHeader × List ℕ
symbols_failure code = (record { status = neg32 code; symbol_count = 0; payload_len = 0 }, [])

unfoldable pub slice_failure : ℕ → AstSliceResponseHeader × List ℕ
slice_failure code =
    (record { status = neg32 code; start_line = 0; end_line = 0; content_len = 0 }, [])

-- The content is sent as far as `content_len` says.
unfoldable pub slice_response : Result SymbolSlice → AstSliceResponseHeader × List ℕ
unfolding slice_failure
slice_response (err _) = slice_failure 3
slice_response (ok s) = (
  record {
    status = 0;
    start_line = s.start_line;
    end_line = s.end_line;
    content_len = u32 (length s.content);
  },
  take (u32 (length s.content)) s.content,
)

unfoldable pub patch_failure : ℕ → AstPatchResponseHeader
patch_failure code = record {
  status = neg32 code;
  old_start_line = 0;
  old_end_line = 0;
  new_end_line = 0;
}

module _ {W : Type 0} (services : Services W) where
  -- From the path to the response header of `handle_ast_symbols`, with the text to send.
  unfoldable pub symbols_of : List ℕ → W → (AstSymbolsResponseHeader × List ℕ) × W
  unfolding read_file symbols_failure symbols_response
  symbols_of path world =
      let (read_res, world') = read_file services path file_buffer_capacity world in
      elim read_res [
        | err _ ↦ (symbols_failure 1, world')
        | ok source ↦
            if services.known_language path
            then (symbols_response (services.symbols path source), world')
            else (symbols_failure 2, world')
      ]

  unfoldable pub handle_ast_symbols : Option ℕ → FrameHeader → List ℕ → Core W → Bool × Core W
  unfolding symbols_of response_header
  handle_ast_symbols fd header payload core =
      with_request header.payload_len (sizeof ast_symbols_request_struct)
        (decode_ast_symbols_request payload) core
        (λ req. sizeof ast_symbols_request_struct + req.path_len)
        (λ req.
          let path = take req.path_len (drop (sizeof ast_symbols_request_struct) payload) in
          let (response, world) = symbols_of path core.world in
          let (resp_hdr, text) = response in
          reply fd
            (response_header header Opcode.ast_symbols_response
              (u32 (sizeof ast_symbols_response_struct + length text)))
            (sizeof ast_symbols_response_struct) (encode_ast_symbols_response resp_hdr) (text ∷ [])
            (record core { world = world }))

  unfoldable pub slice_of : List ℕ → List ℕ → W → (AstSliceResponseHeader × List ℕ) × W
  unfolding read_file slice_failure slice_response
  slice_of path symbol world =
      let (read_res, world') = read_file services path file_buffer_capacity world in
      elim read_res [
        | err _ ↦ (slice_failure 1, world')
        | ok source ↦
            if services.known_language path
            then (slice_response (services.slice path source symbol), world')
            else (slice_failure 2, world')
      ]

  unfoldable pub handle_ast_slice : Option ℕ → FrameHeader → List ℕ → Core W → Bool × Core W
  unfolding slice_of response_header
  handle_ast_slice fd header payload core =
      with_request header.payload_len (sizeof ast_slice_request_struct)
        (decode_ast_slice_request payload) core
        (λ req. sizeof ast_slice_request_struct + req.path_len + req.symbol_len)
        (λ req.
          let names = drop (sizeof ast_slice_request_struct) payload in
          let (response, world) =
            slice_of (take req.path_len names) (take req.symbol_len (drop req.path_len names))
              core.world in
          let (resp_hdr, content) = response in
          reply fd
            (response_header header Opcode.ast_slice_response
              (u32 (sizeof ast_slice_response_struct + resp_hdr.content_len)))
            (sizeof ast_slice_response_struct) (encode_ast_slice_response resp_hdr) (content ∷ [])
            (record core { world = world }))

  -- The end of a patch: the new text goes to the file.
  unfoldable pub write_patched :
      List ℕ → Result PatchResult → Core W → AstPatchResponseHeader × Core W
  unfolding write_file patch_failure
  write_patched path (err _) core = (patch_failure 3, core)
  write_patched path (ok p) core =
      let (write_res, core') = write_file services path p.text core in
      elim write_res [
        | err _ ↦ (patch_failure 4, core')
        | ok _ ↦ (
          record {
            status = 0;
            old_start_line = p.old_start_line;
            old_end_line = p.old_end_line;
            new_end_line = p.new_end_line;
          },
          core',
        )
      ]

  unfoldable pub patch_of : List ℕ → List ℕ → List ℕ → Core W → AstPatchResponseHeader × Core W
  unfolding read_file write_patched
  patch_of path symbol replacement core =
      let (read_res, world) = read_file services path file_buffer_capacity core.world in
      let core' = record core { world = world } in
      elim read_res [
        | err _ ↦ (patch_failure 1, core')
        | ok source ↦
            if services.known_language path
            then write_patched path (services.patch path source symbol replacement) core'
            else (patch_failure 2, core')
      ]

  unfoldable pub handle_ast_patch : Option ℕ → FrameHeader → List ℕ → Core W → Bool × Core W
  unfolding patch_of response_header
  handle_ast_patch fd header payload core =
      with_request header.payload_len (sizeof ast_patch_request_struct)
        (decode_ast_patch_request payload) core
        (λ req.
          sizeof ast_patch_request_struct + req.path_len + req.symbol_len + req.replacement_len)
        (λ req.
          let names = drop (sizeof ast_patch_request_struct) payload in
          let after_path = drop req.path_len names in
          let (resp_hdr, core') =
            patch_of (take req.path_len names) (take req.symbol_len after_path)
              (take req.replacement_len (drop req.symbol_len after_path)) core in
          reply fd
            (response_header header Opcode.ast_patch_response (sizeof ast_patch_response_struct))
            (sizeof ast_patch_response_struct) (encode_ast_patch_response resp_hdr) [] core')
