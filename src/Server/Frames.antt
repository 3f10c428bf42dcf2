-- ===== src/Server/Frames.antt =====
-- `process_client_frames`: complete frames leave the receive buffer one by one.
pub mod Stream
pub mod Round
pub mod Rest
pub mod Served
use axiom_vm.Prelude.{
  ℕ, zero, suc, ◌+◌, ◌-◌, Bool, true, false, Option, List, if◌then◌else◌, ltb, take, drop,
}
use axiom_vm.Common.{ok, err}
use axiom_vm.FixedVector.{FixedVector, as_span}
use axiom_vm.Wire.Headers.{FrameHeader}
use axiom_vm.Wire.Codec.{decode_header, header_size}
use axiom_vm.Server.Slot.{ClientSlot, Core, drop_client}
use axiom_vm.Server.Consume.{consume}

-- A handler is given the descriptor, the header and the payload of a frame. It says whether the
-- writes of its response went through.
abbrev pub Handler : Type 0 → Type 0
Handler W = Option ℕ → FrameHeader → List ℕ → Core W → Bool × Core W

-- `slot->rx_buffer.as_span().subspan(HEADER_SIZE, payload_len)`
abbrev pub payload_of : List ℕ → FrameHeader → List ℕ
payload_of span header = take header.payload_len (drop header_size span)

module _ {W : Type 0} (buffer_capacity : ℕ) (handle : Handler W) where
  -- `dispatch_frame`. Wherever a write of a response fails, the handlers give the client up.
  unfoldable pub dispatch_frame : ClientSlot → FrameHeader → Core W → ClientSlot × Core W
  dispatch_frame slot header core =
      let (written, core') =
        handle slot.fd header (payload_of (as_span slot.rx_buffer) header) core in
      if written then (slot, core') else drop_client slot core'

  -- the loop of `process_client_frames`, with fuel for the rounds
  unfoldable pub frame_loop : ℕ → ClientSlot → Core W → ClientSlot × Core W
  unfolding dispatch_frame
  frame_loop zero slot core = (slot, core)
  frame_loop (suc fuel) slot core =
      if ltb slot.rx_buffer.size header_size
      then (slot, core)
      else elim (decode_header (as_span slot.rx_buffer)) [
        | err _ ↦ drop_client slot core
        | ok header ↦
            let total_frame_len = header_size + header.payload_len in
            let handled =
              let (slot', core') = dispatch_frame slot header core in
              frame_loop fuel
                (record slot' {
                  rx_buffer = consume buffer_capacity slot'.rx_buffer total_frame_len;
                })
                core' in
            if ltb (buffer_capacity - header_size) header.payload_len
            then drop_client slot core
            else if ltb slot.rx_buffer.size total_frame_len
            then (slot, core)
            else handled
      ]

  -- Every round takes a header at least out of the buffer, so that its size bounds the rounds.
  unfoldable pub process_client_frames : ClientSlot → Core W → ClientSlot × Core W
  unfolding frame_loop
  process_client_frames slot core = frame_loop (suc slot.rx_buffer.size) slot core
