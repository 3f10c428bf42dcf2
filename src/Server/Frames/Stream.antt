-- ===== src/Server/Frames/Stream.antt =====
-- The receive buffer as a stream of frames.
use axiom_vm.Prelude.{
  ℕ, ◌+◌, ◌≤◌, ◌<◌, ◌≡◌, ap, ◌∙◌, List, [], ◌∷◌, ◌++◌, arith, length, take, drop, length-append,
  append_assoc, take-length-append, drop-length-append,
}
use axiom_vm.Common.{ok, err, SystemError}
use axiom_vm.Wire.Struct.{to_memory, length-to_memory}
use axiom_vm.Wire.Headers.{FrameHeader, frame_header_struct}
use axiom_vm.Wire.Codec.{decode_header, header_size, wire_magic}
use axiom_vm.Wire.RoundTrip.{Fits}
use axiom_vm.Server.Frames.{payload_of}

pub record Frame : Type 0 where
  pub header : FrameHeader
  pub payload : List ℕ

abbrev pub header_bytes : FrameHeader → List ℕ
header_bytes h = to_memory frame_header_struct.widths (frame_header_struct.fields h)

abbrev pub frame_bytes : Frame → List ℕ
frame_bytes f = header_bytes f.header ++ f.payload

abbrev pub stream : List Frame → List ℕ → List ℕ
stream [] rest = rest
stream (f ∷ fs) rest = frame_bytes f ++ stream fs rest

-- A frame as a peer may send it: its fields fit, its payload has the length that it states, and
-- the whole has room in the receive buffer.
pub record IsFrame (buffer_capacity : ℕ) (f : Frame) : Type 0 where
  pub fits : Fits frame_header_struct f.header
  pub magic : f.header.magic ≡ wire_magic
  pub stated : length f.payload ≡ f.header.payload_len
  pub room : header_size + f.header.payload_len ≤ buffer_capacity

-- A part of a frame: less than a header, or a header and less than its payload.
pub data IsPartial (buffer_capacity : ℕ) (bytes : List ℕ) : Type 0 where
  in_header : length bytes < header_size → IsPartial buffer_capacity bytes
  in_payload :
      (h : FrameHeader)
      → header_size ≤ length bytes
      → decode_header bytes ≡ ok h
      → header_size + h.payload_len ≤ buffer_capacity
      → length bytes < header_size + h.payload_len
      → IsPartial buffer_capacity bytes

-- What no frame begins with: a wrong magic, or a payload length that the buffer cannot hold.
pub data IsMalformed (buffer_capacity : ℕ) (bytes : List ℕ) : Type 0 where
  undecodable :
      (e : SystemError)
      → header_size ≤ length bytes
      → decode_header bytes ≡ err e
      → IsMalformed buffer_capacity bytes
  too_long :
      (h : FrameHeader)
      → header_size ≤ length bytes
      → decode_header bytes ≡ ok h
      → buffer_capacity < header_size + h.payload_len
      → IsMalformed buffer_capacity bytes

pub length-frame_bytes : (f : Frame) → length (frame_bytes f) ≡ header_size + length f.payload
length-frame_bytes f = omega (
  arith,
  length-append (header_bytes f.header) f.payload,
  length-to_memory frame_header_struct.widths (frame_header_struct.fields f.header),
)

length-header_bytes : (h : FrameHeader) → length (header_bytes h) ≡ header_size
length-header_bytes h = length-to_memory frame_header_struct.widths (frame_header_struct.fields h)

pub payload_of-frame :
    (f : Frame) (rest : List ℕ)
    → length f.payload ≡ f.header.payload_len
    → payload_of (frame_bytes f ++ rest) f.header ≡ f.payload
payload_of-frame f rest stated =
    ap (λ bs. take f.header.payload_len (drop header_size bs))
      (append_assoc (header_bytes f.header) f.payload rest)
    ∙ ap (take f.header.payload_len) (
        drop-length-append header_size (header_bytes f.header) (f.payload ++ rest)
          (length-header_bytes f.header))
    ∙ take-length-append f.header.payload_len f.payload rest stated
