-- ===== src/Server/Frames/Served.antt =====
-- What `process_client_frames` does to any receive buffer.
use axiom_vm.Prelude.{
  ℕ, zero, suc, ◌+◌, ◌≤◌, ◌<◌, ◌^◌, ◌≡◌, refl, ap, sym, ◌∙◌, subst, ◌⊎◌, inl, inr, Bool, true,
  false, List, [], ◌∷◌, ◌++◌, arith, length, take, drop, All, IsByte, ltb, append_assoc, All-drop,
  take-append-drop, drop-drop, ltb→lt, ltb→le, Bool-cases, length-take, length-drop,
}
use axiom_vm.Common.{Result-cases}
use axiom_vm.FixedVector.{as_span}
use axiom_vm.FixedVector.Refine.{IsValid}
use axiom_vm.Wire.Headers.{FrameHeader}
use axiom_vm.Wire.Codec.{decode_header, header_size}
use axiom_vm.Wire.RoundTrip.{Front, decode_header-Front}
use axiom_vm.Server.Slot.{ClientSlot, Core, drop_client}
use axiom_vm.Server.Frames.{Handler, frame_loop, process_client_frames}
use axiom_vm.Server.Frames.Stream.{
  Frame, frame_bytes, header_bytes, stream, IsFrame, IsPartial, in_header, in_payload, IsMalformed,
  undecodable, too_long,
}
use axiom_vm.Server.Frames.Rest.{AtRest, loop-AtRest}
use axiom_vm.Server.Frames.Round.{
  serve, Waits, GivenUp, loop_partial, loop_malformed, drop_client-GivenUp,
}

module _ (buffer_capacity : ℕ) where
  -- A buffer as frames and what follows the last of them.
  pub record Split (bytes : List ℕ) : Type 0 where
    pub frames : List Frame
    pub rest : List ℕ
    pub whole : bytes ≡ stream frames rest
    pub all_frames : All (IsFrame buffer_capacity) frames
    pub ending : IsPartial buffer_capacity rest ⊎ IsMalformed buffer_capacity rest

  frame_at : FrameHeader → List ℕ → Frame
  frame_at h bytes = record { header = h; payload = take h.payload_len (drop header_size bytes) }

  frame_at-IsFrame :
      (h : FrameHeader) (bytes : List ℕ)
      → Front bytes h
      → header_size + h.payload_len ≤ buffer_capacity
      → header_size + h.payload_len ≤ length bytes
      → IsFrame buffer_capacity (frame_at h bytes)
  unfolding frame_at
  frame_at-IsFrame h bytes front room le = record {
    fits = front.fits;
    magic = front.magic;
    stated =
        omega (
          arith,
          length-take h.payload_len (drop header_size bytes),
          length-drop header_size bytes,
        );
    room = room;
  }

  frame_at-bytes :
      (h : FrameHeader) (bytes : List ℕ)
      → Front bytes h
      → bytes ≡ frame_bytes (frame_at h bytes) ++ drop (header_size + h.payload_len) bytes
  unfolding frame_at
  frame_at-bytes h bytes front =
      sym front.bytes
      ∙ ap (◌++◌ (header_bytes h)) (
          sym (take-append-drop h.payload_len (drop header_size bytes))
          ∙ ap (◌++◌ (take h.payload_len (drop header_size bytes)))
              (drop-drop h.payload_len header_size bytes))
      ∙ sym (append_assoc (header_bytes h) (take h.payload_len (drop header_size bytes)) _)

  -- Every list of bytes splits.
  split : (fuel : ℕ) (bytes : List ℕ) → All IsByte bytes → length bytes < fuel → Split bytes
  split zero bytes hb enough = absurd (omega arith)
  split (suc fuel) bytes hb enough = elim (Bool-cases (ltb (length bytes) header_size)) [
    | inl e ↦ stop (inl (in_header (ltb→lt _ _ e)))
    | inr e ↦ elim (Result-cases (decode_header bytes)) [
      | inr (x, d) ↦ stop (inr (undecodable x (ltb→le _ _ e) d))
      | inl (h, d) ↦ elim (Bool-cases (ltb buffer_capacity (header_size + h.payload_len))) [
        | inl big ↦ stop (inr (too_long h (ltb→le _ _ e) d (ltb→lt _ _ big)))
        | inr fits ↦ elim (Bool-cases (ltb (length bytes) (header_size + h.payload_len))) [
          | inl short ↦
              stop (inl (in_payload h (ltb→le _ _ e) d (ltb→le _ _ fits) (ltb→lt _ _ short)))
          | inr long ↦
              go_on h (decode_header-Front bytes h hb d) (ltb→le _ _ fits) (ltb→le _ _ long) (
                split fuel (drop (header_size + h.payload_len) bytes)
                  (All-drop IsByte (header_size + h.payload_len) bytes hb)
                  (omega (arith, length-drop (header_size + h.payload_len) bytes, ltb→le _ _ long)))
        ]
      ]
    ]
  ]
    where
      stop : IsPartial buffer_capacity bytes ⊎ IsMalformed buffer_capacity bytes → Split bytes
      stop ending = record {
        frames = [];
        rest = bytes;
        whole = refl;
        all_frames = tt;
        ending = ending;
      }

      go_on :
          (h : FrameHeader)
          → Front bytes h
          → header_size + h.payload_len ≤ buffer_capacity
          → header_size + h.payload_len ≤ length bytes
          → Split (drop (header_size + h.payload_len) bytes)
          → Split bytes
      go_on h front room le s = record {
        frames = frame_at h bytes ∷ s.frames;
        rest = s.rest;
        whole = frame_at-bytes h bytes front ∙ ap (◌++◌ (frame_bytes (frame_at h bytes))) s.whole;
        all_frames = (frame_at-IsFrame h bytes front room le, s.all_frames);
        ending = s.ending;
      }

module _ {W : Type 0} (buffer_capacity : ℕ) (handle : Handler W) where
  -- The three ways in which a run of the loop can end, by what the handler said of the frames of a
  -- split buffer and by what follows them.
  pub data Ended (slot : ClientSlot) (bytes : List ℕ) (s : Split buffer_capacity bytes)
      : Bool × Core W → ClientSlot × Core W → Type 0 where
    -- every response went out, and part of a frame waits
    waiting :
        {core : Core W} {out : ClientSlot × Core W}
        → IsPartial buffer_capacity s.rest
        → Waits buffer_capacity handle slot s.rest core out
        → Ended slot bytes s (true, core) out
    -- every response went out, and what follows is malformed
    refused :
        {core : Core W} {out : ClientSlot × Core W}
        → IsMalformed buffer_capacity s.rest
        → GivenUp buffer_capacity handle slot.fd core out
        → Ended slot bytes s (true, core) out
    -- a response did not go out
    lost :
        {core : Core W} {out : ClientSlot × Core W}
        → GivenUp buffer_capacity handle slot.fd core out
        → Ended slot bytes s (false, core) out

  Ended-at_rest :
      (slot : ClientSlot) (bytes : List ℕ) (s : Split buffer_capacity bytes) (fuel : ℕ)
      (slot' : ClientSlot) (core' : Core W)
      → 12 ≤ buffer_capacity
      → slot'.fd ≡ slot.fd
      → as_span slot'.rx_buffer ≡ s.rest
      → IsValid buffer_capacity slot'.rx_buffer
      → IsPartial buffer_capacity s.rest ⊎ IsMalformed buffer_capacity s.rest
      → Ended slot bytes s (true, core') (frame_loop buffer_capacity handle (suc fuel) slot' core')
  Ended-at_rest slot bytes s fuel slot' core' wide fd span valid (inl p) =
      rw
        (loop_partial buffer_capacity handle fuel slot' core' valid
          (subst (IsPartial buffer_capacity) (sym span) p))
        (waiting p (record { same_fd = fd; left = span; valid = valid; core_eq = refl }))
  Ended-at_rest slot bytes s fuel slot' core' wide fd span valid (inr m) =
      rw
        (loop_malformed buffer_capacity handle fuel slot' core' wide valid
          (subst (IsMalformed buffer_capacity) (sym span) m))
        (refused m (
          subst (λ d. GivenUp buffer_capacity handle d core' (drop_client slot' core')) fd
            (drop_client-GivenUp buffer_capacity handle slot' core')))

  ended :
      (slot : ClientSlot) (core : Core W) (fuel : ℕ)
      (s : Split buffer_capacity (as_span slot.rx_buffer)) (served : Bool × Core W)
      → 12 ≤ buffer_capacity
      → AtRest buffer_capacity handle fuel slot s.rest core served
      → Ended slot
          (as_span slot.rx_buffer)
          s
          served
          (frame_loop buffer_capacity handle fuel slot core)
  ended slot core fuel s (true, core') wide (inl (_, fuel', slot', fd, span, valid, same)) =
      rw same (Ended-at_rest slot _ s fuel' slot' core' wide fd span valid s.ending)
  ended slot core fuel s (true, core') wide (inr (no_way, gone)) = cc
  ended slot core fuel s (false, core') wide (inl (no_way, _, _, _, _, _, _)) = cc
  ended slot core fuel s (false, core') wide (inr (_, gone)) = lost gone

  -- `process_client_frames` terminates on every valid receive buffer of bytes whose capacity is
  -- from 12 to 2 ^ 62: the buffer is a series of complete frames and a rest that no frame can be
  -- taken from; the frames are handled in order, each with its own payload, up to the first
  -- response that fails; then an incomplete rest is left in the buffer of the client, and a
  -- malformed rest or a failed response gives the client up.
  pub process_client_frames-Ended :
      (slot : ClientSlot) (core : Core W)
      → 12 ≤ buffer_capacity
      → buffer_capacity ≤ 2 ^ 62
      → IsValid buffer_capacity slot.rx_buffer
      → All IsByte (as_span slot.rx_buffer)
      → (s : Split buffer_capacity (as_span slot.rx_buffer)) × Ended slot
          (as_span slot.rx_buffer)
          s
          (serve buffer_capacity handle slot.fd s.frames core)
          (process_client_frames buffer_capacity handle slot core)
  unfolding process_client_frames
  process_client_frames-Ended slot core wide narrow valid bytes =
      let s =
        split buffer_capacity (suc (length (as_span slot.rx_buffer))) (as_span slot.rx_buffer) bytes
          (omega arith) in
      (
        s,
        ended slot core (suc slot.rx_buffer.size) s
            (serve buffer_capacity handle slot.fd s.frames core) wide
            (loop-AtRest buffer_capacity handle s.frames (suc slot.rx_buffer.size) slot core s.rest
              wide narrow valid s.all_frames s.whole (omega arith)),
      )
