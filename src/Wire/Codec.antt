-- ===== src/Wire/Codec.antt =====
-- The `decode_…` and `encode_…` functions of include/axiom/wire.hpp. A decoder reads the front of
-- the buffer; an encoder gives the size that it wrote beside the buffer afterwards.
use axiom_vm.Prelude.{ℕ, List, length, if◌then◌else◌, ltb, ◌==◌}
use axiom_vm.Common.{Result, ok, err, buffer_underflow, buffer_overflow, protocol_error}
use axiom_vm.Wire.Struct.{Struct, size_of, load, store}
use axiom_vm.Wire.Headers.{
  FrameHeader, frame_header_struct, ExecRequestHeader, exec_request_struct, ExecResponseHeader,
  exec_response_struct, AstSymbolsRequestHeader, ast_symbols_request_struct,
  AstSymbolsResponseHeader, ast_symbols_response_struct, AstSliceRequestHeader,
  ast_slice_request_struct, AstSliceResponseHeader, ast_slice_response_struct,
  AstPatchRequestHeader, ast_patch_request_struct, AstPatchResponseHeader,
  ast_patch_response_struct, CdpActionRequestHeader, cdp_request_struct, CdpActionResponseHeader,
  cdp_response_struct, ReadFileRequestHeader, read_file_request_struct, ReadFileResponseHeader,
  read_file_response_struct, WriteFileRequestHeader, write_file_request_struct,
  WriteFileResponseHeader, write_file_response_struct,
}

abbrev pub wire_magic : ℕ
wire_magic = 0xAA55

abbrev pub header_size : ℕ
header_size = 12

-- `sizeof` of a packed struct.
abbrev pub sizeof : {S : Type 0} → Struct S → ℕ
sizeof s = size_of s.widths

unfoldable pub decode_header : List ℕ → Result FrameHeader
decode_header buffer =
    if ltb (length buffer) (sizeof frame_header_struct)
    then err buffer_underflow
    else let header = load frame_header_struct buffer in
      if header.magic == wire_magic then ok header else err protocol_error

unfoldable pub encode_header : FrameHeader → List ℕ → Result (ℕ × List ℕ)
encode_header hdr buf =
    if ltb (length buf) (sizeof frame_header_struct)
    then err buffer_overflow
    else ok (sizeof frame_header_struct, store frame_header_struct hdr buf)

unfoldable pub decode_exec_request : List ℕ → Result ExecRequestHeader
decode_exec_request buffer =
    if ltb (length buffer) (sizeof exec_request_struct)
    then err buffer_underflow
    else ok (load exec_request_struct buffer)

unfoldable pub encode_exec_request : ExecRequestHeader → List ℕ → Result (ℕ × List ℕ)
encode_exec_request req buf =
    if ltb (length buf) (sizeof exec_request_struct)
    then err buffer_overflow
    else ok (sizeof exec_request_struct, store exec_request_struct req buf)

unfoldable pub decode_exec_response : List ℕ → Result ExecResponseHeader
decode_exec_response buffer =
    if ltb (length buffer) (sizeof exec_response_struct)
    then err buffer_underflow
    else ok (load exec_response_struct buffer)

unfoldable pub encode_exec_response : ExecResponseHeader → List ℕ → Result (ℕ × List ℕ)
encode_exec_response resp buf =
    if ltb (length buf) (sizeof exec_response_struct)
    then err buffer_overflow
    else ok (sizeof exec_response_struct, store exec_response_struct resp buf)

unfoldable pub decode_ast_symbols_request : List ℕ → Result AstSymbolsRequestHeader
decode_ast_symbols_request buffer =
    if ltb (length buffer) (sizeof ast_symbols_request_struct)
    then err buffer_underflow
    else ok (load ast_symbols_request_struct buffer)

unfoldable pub encode_ast_symbols_request : AstSymbolsRequestHeader → List ℕ → Result (ℕ × List ℕ)
encode_ast_symbols_request req buf =
    if ltb (length buf) (sizeof ast_symbols_request_struct)
    then err buffer_overflow
    else ok (sizeof ast_symbols_request_struct, store ast_symbols_request_struct req buf)

unfoldable pub decode_ast_symbols_response : List ℕ → Result AstSymbolsResponseHeader
decode_ast_symbols_response buffer =
    if ltb (length buffer) (sizeof ast_symbols_response_struct)
    then err buffer_underflow
    else ok (load ast_symbols_response_struct buffer)

unfoldable pub encode_ast_symbols_response : AstSymbolsResponseHeader → List ℕ → Result (ℕ × List ℕ)
encode_ast_symbols_response resp buf =
    if ltb (length buf) (sizeof ast_symbols_response_struct)
    then err buffer_overflow
    else ok (sizeof ast_symbols_response_struct, store ast_symbols_response_struct resp buf)

unfoldable pub decode_ast_slice_request : List ℕ → Result AstSliceRequestHeader
decode_ast_slice_request buffer =
    if ltb (length buffer) (sizeof ast_slice_request_struct)
    then err buffer_underflow
    else ok (load ast_slice_request_struct buffer)

unfoldable pub encode_ast_slice_request : AstSliceRequestHeader → List ℕ → Result (ℕ × List ℕ)
encode_ast_slice_request req buf =
    if ltb (length buf) (sizeof ast_slice_request_struct)
    then err buffer_overflow
    else ok (sizeof ast_slice_request_struct, store ast_slice_request_struct req buf)

unfoldable pub decode_ast_slice_response : List ℕ → Result AstSliceResponseHeader
decode_ast_slice_response buffer =
    if ltb (length buffer) (sizeof ast_slice_response_struct)
    then err buffer_underflow
    else ok (load ast_slice_response_struct buffer)

unfoldable pub encode_ast_slice_response : AstSliceResponseHeader → List ℕ → Result (ℕ × List ℕ)
encode_ast_slice_response resp buf =
    if ltb (length buf) (sizeof ast_slice_response_struct)
    then err buffer_overflow
    else ok (sizeof ast_slice_response_struct, store ast_slice_response_struct resp buf)

unfoldable pub decode_ast_patch_request : List ℕ → Result AstPatchRequestHeader
decode_ast_patch_request buffer =
    if ltb (length buffer) (sizeof ast_patch_request_struct)
    then err buffer_underflow
    else ok (load ast_patch_request_struct buffer)

unfoldable pub encode_ast_patch_request : AstPatchRequestHeader → List ℕ → Result (ℕ × List ℕ)
encode_ast_patch_request req buf =
    if ltb (length buf) (sizeof ast_patch_request_struct)
    then err buffer_overflow
    else ok (sizeof ast_patch_request_struct, store ast_patch_request_struct req buf)

unfoldable pub decode_ast_patch_response : List ℕ → Result AstPatchResponseHeader
decode_ast_patch_response buffer =
    if ltb (length buffer) (sizeof ast_patch_response_struct)
    then err buffer_underflow
    else ok (load ast_patch_response_struct buffer)

unfoldable pub encode_ast_patch_response : AstPatchResponseHeader → List ℕ → Result (ℕ × List ℕ)
encode_ast_patch_response resp buf =
    if ltb (length buf) (sizeof ast_patch_response_struct)
    then err buffer_overflow
    else ok (sizeof ast_patch_response_struct, store ast_patch_response_struct resp buf)

unfoldable pub decode_cdp_request : List ℕ → Result CdpActionRequestHeader
decode_cdp_request buffer =
    if ltb (length buffer) (sizeof cdp_request_struct)
    then err buffer_underflow
    else ok (load cdp_request_struct buffer)

unfoldable pub encode_cdp_request : CdpActionRequestHeader → List ℕ → Result (ℕ × List ℕ)
encode_cdp_request req buf =
    if ltb (length buf) (sizeof cdp_request_struct)
    then err buffer_overflow
    else ok (sizeof cdp_request_struct, store cdp_request_struct req buf)

unfoldable pub decode_cdp_response : List ℕ → Result CdpActionResponseHeader
decode_cdp_response buffer =
    if ltb (length buffer) (sizeof cdp_response_struct)
    then err buffer_underflow
    else ok (load cdp_response_struct buffer)

unfoldable pub encode_cdp_response : CdpActionResponseHeader → List ℕ → Result (ℕ × List ℕ)
encode_cdp_response resp buf =
    if ltb (length buf) (sizeof cdp_response_struct)
    then err buffer_overflow
    else ok (sizeof cdp_response_struct, store cdp_response_struct resp buf)

unfoldable pub decode_read_file_request : List ℕ → Result ReadFileRequestHeader
decode_read_file_request buffer =
    if ltb (length buffer) (sizeof read_file_request_struct)
    then err buffer_underflow
    else ok (load read_file_request_struct buffer)

unfoldable pub encode_read_file_response : ReadFileResponseHeader → List ℕ → Result (ℕ × List ℕ)
encode_read_file_response resp buf =
    if ltb (length buf) (sizeof read_file_response_struct)
    then err buffer_overflow
    else ok (sizeof read_file_response_struct, store read_file_response_struct resp buf)

unfoldable pub decode_write_file_request : List ℕ → Result WriteFileRequestHeader
decode_write_file_request buffer =
    if ltb (length buffer) (sizeof write_file_request_struct)
    then err buffer_underflow
    else ok (load write_file_request_struct buffer)

unfoldable pub encode_write_file_response : WriteFileResponseHeader → List ℕ → Result (ℕ × List ℕ)
encode_write_file_response resp buf =
    if ltb (length buf) (sizeof write_file_response_struct)
    then err buffer_overflow
    else ok (sizeof write_file_response_struct, store write_file_response_struct resp buf)
