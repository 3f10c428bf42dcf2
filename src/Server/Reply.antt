-- ===== src/Server/Reply.antt =====
-- How a handler of include/axiom/server.hpp sends its response: a header buffer, then the parts of
-- the payload that are not empty, up to the first write that fails.
pub mod Laws
use axiom_vm.Prelude.{
  ℕ, zero, suc, ◌+◌, ◌-◌, ◌%◌, ◌^◌, Bool, true, false, Option, none, some, List, [], ◌∷◌, ◌++◌,
  if◌then◌else◌, replicate, ltb,
}
use axiom_vm.Common.{Result, ok, err}
use axiom_vm.Wire.Headers.{FrameHeader}
use axiom_vm.Wire.Codec.{wire_magic, header_size, encode_header}
use axiom_vm.Wire.Opcode.{Opcode, opcode_code}
use axiom_vm.Server.Os.{write_all}
use axiom_vm.Server.Slot.{Core}

-- `static_cast<uint32_t>`
abbrev pub u32 : ℕ → ℕ
u32 n = n % 2 ^ 32

-- An `int32_t` below zero, by its pattern.
abbrev pub neg32 : ℕ → ℕ
neg32 n = (2 ^ 32 - n) % 2 ^ 32

unfoldable pub response_header : FrameHeader → Opcode → ℕ → FrameHeader
unfolding opcode_code
response_header request opcode payload_len = record {
  magic = wire_magic;
  opcode = opcode_code opcode;
  request_id = request.request_id;
  payload_len = payload_len;
}

module _ {W : Type 0} where
  -- `write_all(slot->fd, …)`; a write to -1 fails
  unfoldable pub send : Option ℕ → List ℕ → Core W → Bool × Core W
  unfolding write_all
  send none bytes core = (false, core)
  send (some fd) bytes core =
      let (written, os) = write_all fd bytes core.os in (written, record core { os = os })

  -- The writes of one response: an empty part is passed over.
  unfoldable pub send_parts : Option ℕ → List (List ℕ) → Core W → Bool × Core W
  unfolding send
  send_parts fd [] core = (true, core)
  send_parts fd ([] ∷ parts) core = send_parts fd parts core
  send_parts fd ((b ∷ bs) ∷ parts) core =
      let (written, core') = send fd (b ∷ bs) core in
      let rest = send_parts fd parts core' in if written then rest else (false, core')

  -- `hdr_buf` from the frame header and the response header, then the writes. Where an encoder
  -- fails nothing is written.
  unfoldable pub reply :
      Option ℕ
      → FrameHeader
      → ℕ
      → (List ℕ → Result (ℕ × List ℕ))
      → List (List ℕ)
      → Core W
      → Bool × Core W
  unfolding send_parts
  reply fd out_hdr resp_size encode_resp body core =
      elim (encode_header out_hdr (replicate header_size 0)) [
        | err _ ↦ (true, core)
        | ok (_, front) ↦ elim (encode_resp (replicate resp_size 0)) [
          | err _ ↦ (true, core)
          | ok (_, back) ↦ send_parts fd ((front ++ back) ∷ body) core
        ]
      ]

-- How the handlers begin: a payload that is shorter than the request's header, that does not decode,
-- or that is shorter than the parts that the header states, is passed over.
unfoldable pub with_request :
    {W : Type 0} {R : Type 0}
    → ℕ
    → ℕ
    → Result R
    → Core W
    → (R → ℕ)
    → (R → Bool × Core W)
    → Bool × Core W
with_request payload_len header_len request core needed answer =
    if ltb payload_len header_len then (true, core) else elim request [
      | err _ ↦ (true, core)
      | ok req ↦ if ltb payload_len (needed req) then (true, core) else answer req
    ]
