-- ===== src/Server/Events/Stopping.antt =====
-- Once `running_` is cleared, serving a client of include/axiom/server.hpp leaves it so.
use axiom_vm.Prelude.{
  ℕ, zero, suc, ◌+◌, ◌-◌, ◌≡◌, refl, ap, ◌∙◌, inl, inr, Bool, true, false, Option, none, some, List,
  ◌∷◌, Bool-cases, Option-cases, ltb, not, ◌&&◌,
}
use axiom_vm.Common.{Result-cases}
use axiom_vm.FixedVector.{as_span}
use axiom_vm.Wire.Headers.{FrameHeader}
use axiom_vm.Wire.Codec.{decode_header, header_size}
use axiom_vm.Server.Os.{record_event}
use axiom_vm.Server.Slot.{ClientSlot, Core, drop_client, drop_client_lem, hang_up}
use axiom_vm.Server.Frames.{Handler, payload_of, dispatch_frame, frame_loop, process_client_frames}
use axiom_vm.Server.Clients.{
  Server, is_free, ReadAnswer, got, nothing, receive, close_if, serve_slot, handle_client_event,
  push_chunk, find_slot_by_fd, slot_at,
}

module _ {W : Type 0} where
  abbrev pub IsStopped : Core W → Type 0
  IsStopped core = core.running ≡ false

  -- A handler that never sets the flag `running_` again.
  abbrev pub KeepsStopped : Handler W → Type 0
  KeepsStopped handle =
      (fd : Option ℕ) (header : FrameHeader) (payload : List ℕ) (core : Core W)
      → IsStopped core
      → IsStopped (handle fd header payload core).1

  hang_up-running : (fd : Option ℕ) (core : Core W) → (hang_up fd core).running ≡ core.running
  unfolding hang_up
  hang_up-running none core = refl
  hang_up-running (some fd) core = refl

  drop_client-running :
      (slot : ClientSlot) (core : Core W) → (drop_client slot core).1.running ≡ core.running
  drop_client-running slot core =
      ap (λ (r : ClientSlot × Core W). r.1.running) (drop_client_lem slot core)
      ∙ hang_up-running slot.fd core

module _ {W : Type 0} (buffer_capacity : ℕ) (handle : Handler W) (keeps : KeepsStopped handle) where
  dispatch_frame-IsStopped :
      (slot : ClientSlot) (header : FrameHeader) (core : Core W)
      → IsStopped core
      → IsStopped (dispatch_frame buffer_capacity handle slot header core).1
  unfolding dispatch_frame
  dispatch_frame-IsStopped slot header core h =
      let (written, core') =
        handle slot.fd header (payload_of (as_span slot.rx_buffer) header) core in
      let h' = keeps slot.fd header (payload_of (as_span slot.rx_buffer) header) core h in
      elim (Bool-cases written) [
        | inl e ↦ rw e h'
        | inr e ↦ rw e (drop_client-running slot core' ∙ h')
      ]

  frame_loop-IsStopped :
      (fuel : ℕ) (slot : ClientSlot) (core : Core W)
      → IsStopped core
      → IsStopped (frame_loop buffer_capacity handle fuel slot core).1
  unfolding frame_loop
  frame_loop-IsStopped zero slot core h = h
  frame_loop-IsStopped (suc fuel) slot core h =
      elim (Bool-cases (ltb slot.rx_buffer.size header_size)) [
        | inl e ↦ rw e h
        | inr e ↦ rw e (elim (Result-cases (decode_header (as_span slot.rx_buffer))) [
          | inr (x, d) ↦ rw d (drop_client-running slot core ∙ h)
          | inl (header, d) ↦
              rw d (elim (Bool-cases (ltb (buffer_capacity - header_size) header.payload_len)) [
                | inl big ↦ rw big (drop_client-running slot core ∙ h)
                | inr small ↦
                    rw small
                      (elim (Bool-cases
                        (ltb slot.rx_buffer.size (header_size + header.payload_len))) [
                          | inl part ↦ rw part h
                          | inr whole ↦ rw whole (
                              frame_loop-IsStopped fuel _ _
                                (dispatch_frame-IsStopped slot header core h))
                        ])
              ])
        ])
      ]

  receive-IsStopped :
      (answer : ReadAnswer) (slot : ClientSlot) (core : Core W)
      → IsStopped core
      → IsStopped (receive buffer_capacity handle answer slot core).0.1
  unfolding receive process_client_frames
  receive-IsStopped nothing slot core h = drop_client-running slot core ∙ h
  receive-IsStopped (got b bs) slot core h =
      let (rx, all_in) = push_chunk buffer_capacity slot.rx_buffer (b ∷ bs) in
      let filled = record slot { rx_buffer = rx } in
      elim (Bool-cases all_in) [
        | inl e ↦ rw e (frame_loop-IsStopped (suc rx.size) filled core h)
        | inr e ↦ rw e (drop_client-running filled core ∙ h)
      ]

  close_if-IsStopped :
      (hangup : Bool) (out : ClientSlot × Core W)
      → IsStopped out.1
      → IsStopped (close_if buffer_capacity handle hangup out).1
  unfolding close_if
  close_if-IsStopped hangup (slot, core) h = elim (Bool-cases (not (is_free slot) && hangup)) [
    | inl e ↦ rw e (drop_client-running slot core ∙ h)
    | inr e ↦ rw e h
  ]

  serve_slot-IsStopped :
      (readable hangup : Bool) (answer : ReadAnswer) (slot : ClientSlot) (core : Core W)
      → IsStopped core
      → IsStopped (serve_slot buffer_capacity handle readable hangup answer slot core).1
  unfolding serve_slot
  serve_slot-IsStopped false hangup answer slot core h = close_if-IsStopped hangup (slot, core) h
  serve_slot-IsStopped true hangup answer slot core h =
      let (after, goes_on) = receive buffer_capacity handle answer slot core in
      elim (Bool-cases goes_on) [
        | inl e ↦ rw e (close_if-IsStopped hangup after (receive-IsStopped answer slot core h))
        | inr e ↦ rw e (receive-IsStopped answer slot core h)
      ]

  pub handle_client_event-IsStopped :
      (fd : ℕ) (readable hangup : Bool) (answer : ReadAnswer) (s : Server W)
      → IsStopped s.core
      → IsStopped (handle_client_event buffer_capacity handle fd readable hangup answer s).core
  unfolding handle_client_event record_event
  handle_client_event-IsStopped fd readable hangup answer s h =
      elim (Option-cases (find_slot_by_fd fd s.clients)) [
        | inl e ↦ rw (handle_client_event, e) h
        | inr (i, e) ↦
            rw (handle_client_event, e)
              (serve_slot-IsStopped readable hangup answer (slot_at s.clients i) s.core h)
      ]
