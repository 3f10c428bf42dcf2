-- ===== src/Wire/Headers.antt =====
-- The packed header structs of include/axiom/wire.hpp, field by field in their order, with the
-- widths in bytes. A field of type `int32_t` is its two's complement pattern, below 2 ^ 32.
use axiom_vm.Prelude.{ℕ, [], ◌∷◌, refl}
use axiom_vm.Wire.Struct.{Struct}

-- `FrameHeader`
pub record FrameHeader : Type 0 where
  pub magic : ℕ
  pub opcode : ℕ
  pub request_id : ℕ
  pub payload_len : ℕ

abbrev pub frame_header_struct : Struct FrameHeader
frame_header_struct = record {
  widths = 2 ∷ 2 ∷ 4 ∷ 4 ∷ [];
  fields = λ h. (h.magic, (h.opcode, (h.request_id, (h.payload_len, tt))));
  make = λ v. record { magic = v.0; opcode = v.1.0; request_id = v.1.1.0; payload_len = v.1.1.1.0 };
  make-fields = λ h. refl;
  fields-make = λ v. refl;
}

pub record ExecRequestHeader : Type 0 where
  pub flags : ℕ
  pub timeout_ms : ℕ
  pub cmd_len : ℕ
  pub cwd_len : ℕ

abbrev pub exec_request_struct : Struct ExecRequestHeader
exec_request_struct = record {
  widths = 4 ∷ 4 ∷ 2 ∷ 2 ∷ [];
  fields = λ h. (h.flags, (h.timeout_ms, (h.cmd_len, (h.cwd_len, tt))));
  make = λ v. record { flags = v.0; timeout_ms = v.1.0; cmd_len = v.1.1.0; cwd_len = v.1.1.1.0 };
  make-fields = λ h. refl;
  fields-make = λ v. refl;
}

pub record ExecResponseHeader : Type 0 where
  pub exit_code : ℕ
  pub flags : ℕ
  pub cpu_cycles : ℕ
  pub output_len : ℕ
  pub diff_len : ℕ

abbrev pub exec_response_struct : Struct ExecResponseHeader
exec_response_struct = record {
  widths = 4 ∷ 4 ∷ 8 ∷ 4 ∷ 4 ∷ [];
  fields = λ h. (h.exit_code, (h.flags, (h.cpu_cycles, (h.output_len, (h.diff_len, tt)))));
  make = λ v. record {
    exit_code = v.0;
    flags = v.1.0;
    cpu_cycles = v.1.1.0;
    output_len = v.1.1.1.0;
    diff_len = v.1.1.1.1.0;
  };
  make-fields = λ h. refl;
  fields-make = λ v. refl;
}

pub record AstSymbolsRequestHeader : Type 0 where
  pub path_len : ℕ

abbrev pub ast_symbols_request_struct : Struct AstSymbolsRequestHeader
ast_symbols_request_struct = record {
  widths = 4 ∷ [];
  fields = λ h. (h.path_len, tt);
  make = λ v. record { path_len = v.0 };
  make-fields = λ h. refl;
  fields-make = λ v. refl;
}

pub record AstSymbolsResponseHeader : Type 0 where
  pub status : ℕ
  pub symbol_count : ℕ
  pub payload_len : ℕ

abbrev pub ast_symbols_response_struct : Struct AstSymbolsResponseHeader
ast_symbols_response_struct = record {
  widths = 4 ∷ 4 ∷ 4 ∷ [];
  fields = λ h. (h.status, (h.symbol_count, (h.payload_len, tt)));
  make = λ v. record { status = v.0; symbol_count = v.1.0; payload_len = v.1.1.0 };
  make-fields = λ h. refl;
  fields-make = λ v. refl;
}

pub record AstSliceRequestHeader : Type 0 where
  pub path_len : ℕ
  pub symbol_len : ℕ

abbrev pub ast_slice_request_struct : Struct AstSliceRequestHeader
ast_slice_request_struct = record {
  widths = 2 ∷ 2 ∷ [];
  fields = λ h. (h.path_len, (h.symbol_len, tt));
  make = λ v. record { path_len = v.0; symbol_len = v.1.0 };
  make-fields = λ h. refl;
  fields-make = λ v. refl;
}

pub record AstSliceResponseHeader : Type 0 where
  pub status : ℕ
  pub start_line : ℕ
  pub end_line : ℕ
  pub content_len : ℕ

abbrev pub ast_slice_response_struct : Struct AstSliceResponseHeader
ast_slice_response_struct = record {
  widths = 4 ∷ 4 ∷ 4 ∷ 4 ∷ [];
  fields = λ h. (h.status, (h.start_line, (h.end_line, (h.content_len, tt))));
  make =
      λ v. record { status = v.0; start_line = v.1.0; end_line = v.1.1.0; content_len = v.1.1.1.0 };
  make-fields = λ h. refl;
  fields-make = λ v. refl;
}

pub record AstPatchRequestHeader : Type 0 where
  pub path_len : ℕ
  pub symbol_len : ℕ
  pub replacement_len : ℕ

abbrev pub ast_patch_request_struct : Struct AstPatchRequestHeader
ast_patch_request_struct = record {
  widths = 2 ∷ 2 ∷ 4 ∷ [];
  fields = λ h. (h.path_len, (h.symbol_len, (h.replacement_len, tt)));
  make = λ v. record { path_len = v.0; symbol_len = v.1.0; replacement_len = v.1.1.0 };
  make-fields = λ h. refl;
  fields-make = λ v. refl;
}

pub record AstPatchResponseHeader : Type 0 where
  pub status : ℕ
  pub old_start_line : ℕ
  pub old_end_line : ℕ
  pub new_end_line : ℕ

abbrev pub ast_patch_response_struct : Struct AstPatchResponseHeader
ast_patch_response_struct = record {
  widths = 4 ∷ 4 ∷ 4 ∷ 4 ∷ [];
  fields = λ h. (h.status, (h.old_start_line, (h.old_end_line, (h.new_end_line, tt))));
  make = λ v. record {
    status = v.0;
    old_start_line = v.1.0;
    old_end_line = v.1.1.0;
    new_end_line = v.1.1.1.0;
  };
  make-fields = λ h. refl;
  fields-make = λ v. refl;
}

pub record CdpActionRequestHeader : Type 0 where
  pub action : ℕ
  pub flags : ℕ
  pub target_id : ℕ
  pub scroll_delta : ℕ
  pub payload1_len : ℕ
  pub payload2_len : ℕ

abbrev pub cdp_request_struct : Struct CdpActionRequestHeader
cdp_request_struct = record {
  widths = 1 ∷ 1 ∷ 2 ∷ 4 ∷ 2 ∷ 2 ∷ [];
  fields = λ h. (
    h.action,
    (h.flags, (h.target_id, (h.scroll_delta, (h.payload1_len, (h.payload2_len, tt))))),
  );
  make = λ v. record {
    action = v.0;
    flags = v.1.0;
    target_id = v.1.1.0;
    scroll_delta = v.1.1.1.0;
    payload1_len = v.1.1.1.1.0;
    payload2_len = v.1.1.1.1.1.0;
  };
  make-fields = λ h. refl;
  fields-make = λ v. refl;
}

pub record CdpActionResponseHeader : Type 0 where
  pub status : ℕ
  pub node_count : ℕ
  pub payload_len : ℕ

abbrev pub cdp_response_struct : Struct CdpActionResponseHeader
cdp_response_struct = record {
  widths = 4 ∷ 4 ∷ 4 ∷ [];
  fields = λ h. (h.status, (h.node_count, (h.payload_len, tt)));
  make = λ v. record { status = v.0; node_count = v.1.0; payload_len = v.1.1.0 };
  make-fields = λ h. refl;
  fields-make = λ v. refl;
}

pub record ReadFileRequestHeader : Type 0 where
  pub offset : ℕ
  pub max_bytes : ℕ
  pub path_len : ℕ
  pub reserved : ℕ

abbrev pub read_file_request_struct : Struct ReadFileRequestHeader
read_file_request_struct = record {
  widths = 4 ∷ 4 ∷ 2 ∷ 2 ∷ [];
  fields = λ h. (h.offset, (h.max_bytes, (h.path_len, (h.reserved, tt))));
  make = λ v. record { offset = v.0; max_bytes = v.1.0; path_len = v.1.1.0; reserved = v.1.1.1.0 };
  make-fields = λ h. refl;
  fields-make = λ v. refl;
}

pub record ReadFileResponseHeader : Type 0 where
  pub status : ℕ
  pub total_size : ℕ
  pub content_len : ℕ

abbrev pub read_file_response_struct : Struct ReadFileResponseHeader
read_file_response_struct = record {
  widths = 4 ∷ 4 ∷ 4 ∷ [];
  fields = λ h. (h.status, (h.total_size, (h.content_len, tt)));
  make = λ v. record { status = v.0; total_size = v.1.0; content_len = v.1.1.0 };
  make-fields = λ h. refl;
  fields-make = λ v. refl;
}

pub record WriteFileRequestHeader : Type 0 where
  pub flags : ℕ
  pub mode : ℕ
  pub path_len : ℕ
  pub reserved : ℕ
  pub content_len : ℕ

abbrev pub write_file_request_struct : Struct WriteFileRequestHeader
write_file_request_struct = record {
  widths = 4 ∷ 4 ∷ 2 ∷ 2 ∷ 4 ∷ [];
  fields = λ h. (h.flags, (h.mode, (h.path_len, (h.reserved, (h.content_len, tt)))));
  make = λ v. record {
    flags = v.0;
    mode = v.1.0;
    path_len = v.1.1.0;
    reserved = v.1.1.1.0;
    content_len = v.1.1.1.1.0;
  };
  make-fields = λ h. refl;
  fields-make = λ v. refl;
}

pub record WriteFileResponseHeader : Type 0 where
  pub status : ℕ
  pub bytes_written : ℕ

abbrev pub write_file_response_struct : Struct WriteFileResponseHeader
write_file_response_struct = record {
  widths = 4 ∷ 4 ∷ [];
  fields = λ h. (h.status, (h.bytes_written, tt));
  make = λ v. record { status = v.0; bytes_written = v.1.0 };
  make-fields = λ h. refl;
  fields-make = λ v. refl;
}
