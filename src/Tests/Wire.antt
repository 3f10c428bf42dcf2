-- ===== src/Tests/Wire.antt =====
-- The codecs of include/axiom/wire.hpp on concrete headers.
use axiom_vm.Prelude.{◌≡◌, refl, [], ◌∷◌, arith, All, IsByte}
use axiom_vm.Common.{ok}
use axiom_vm.Wire.Headers.{FrameHeader, ExecRequestHeader, frame_header_struct, exec_request_struct}
use axiom_vm.Wire.Struct.{load, from_memory}
use axiom_vm.Wire.Codec.{encode_header, decode_header, encode_exec_request, decode_exec_request}
use axiom_vm.Wire.RoundTrip.{Written, Decoded, encode_header-decode_header, decode_header-Decoded}
use axiom_vm.Wire.Payload.{exec_request, Restored, encode-decode, decode-encode}
use axiom_vm.Tests.Sample.{are_bytes_lem, ping_bytes}

abbrev ping_header : FrameHeader
ping_header = record { magic = 0xAA55; opcode = 1; request_id = 7; payload_len = 0 }

abbrev echo_request : ExecRequestHeader
echo_request = record { flags = 1; timeout_ms = 1000; cmd_len = 2; cwd_len = 0 }

decode_ping : decode_header ping_bytes ≡ ok ping_header
unfolding decode_header load from_memory
decode_ping = refl

encode_header-decode_header_example :
    Written frame_header_struct encode_header decode_header ping_header
      (9 ∷ 9 ∷ 9 ∷ 9 ∷ 9 ∷ 9 ∷ 9 ∷ 9 ∷ 9 ∷ 9 ∷ 9 ∷ 9 ∷ 9 ∷ [])
encode_header-decode_header_example =
    encode_header-decode_header ping_header (9 ∷ 9 ∷ 9 ∷ 9 ∷ 9 ∷ 9 ∷ 9 ∷ 9 ∷ 9 ∷ 9 ∷ 9 ∷ 9 ∷ 9 ∷ [])
      (omega arith, (omega arith, (omega arith, (omega arith, tt)))) refl (omega arith)

ping-AllByte : All IsByte ping_bytes
ping-AllByte = are_bytes_lem ping_bytes refl

decode_header-Decoded_example : Decoded ping_bytes (decode_header ping_bytes)
decode_header-Decoded_example = decode_header-Decoded ping_bytes ping-AllByte

encode-decode_example :
    Written exec_request_struct encode_exec_request decode_exec_request echo_request
      (0 ∷ 0 ∷ 0 ∷ 0 ∷ 0 ∷ 0 ∷ 0 ∷ 0 ∷ 0 ∷ 0 ∷ 0 ∷ 0 ∷ [])
encode-decode_example =
    encode-decode exec_request echo_request (0 ∷ 0 ∷ 0 ∷ 0 ∷ 0 ∷ 0 ∷ 0 ∷ 0 ∷ 0 ∷ 0 ∷ 0 ∷ 0 ∷ [])
      (omega arith, (omega arith, (omega arith, (omega arith, tt)))) (omega arith)

decode-encode_example :
    Restored exec_request_struct encode_exec_request decode_exec_request ping_bytes
decode-encode_example = decode-encode exec_request ping_bytes ping-AllByte
