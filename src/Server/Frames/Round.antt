-- ===== src/Server/Frames/Round.antt =====
-- One round of the loop of `process_client_frames`.
use axiom_vm.Prelude.{
  ℕ, zero, suc, ◌+◌, ◌-◌, ◌≤◌, ◌<◌, ◌^◌, ◌≡◌, refl, ap, ◌∙◌, ◌⊎◌, Bool, true, false, Option, none,
  List, [], ◌∷◌, ◌++◌, arith, length, drop, if◌then◌else◌, length-append, append_assoc,
  drop-length-append, le→ltb, lt→ltb,
}
use axiom_vm.Common.{ok}
use axiom_vm.FixedVector.{FixedVector, as_span, clear}
use axiom_vm.FixedVector.Refine.{IsValid, length-as_span}
use axiom_vm.Wire.Codec.{decode_header, header_size}
use axiom_vm.Wire.RoundTrip.{decode_header-front}
use axiom_vm.Server.Slot.{ClientSlot, Core, hang_up, drop_client, drop_client_lem}
use axiom_vm.Server.Consume.{consume, consume_lem, consume_empty}
use axiom_vm.Server.Frames.{Handler, payload_of, dispatch_frame, frame_loop}
use axiom_vm.Server.Frames.Stream.{
  Frame, header_bytes, frame_bytes, IsFrame, IsPartial, in_header, in_payload, IsMalformed,
  undecodable, too_long, length-frame_bytes, payload_of-frame,
}

module _ {W : Type 0} (buffer_capacity : ℕ) (handle : Handler W) where
  -- The frames handed to the handler one after the other, up to the first failed response.
  unfoldable pub serve : Option ℕ → List Frame → Core W → Bool × Core W
  serve fd [] core = (true, core)
  serve fd (f ∷ fs) core =
      let (written, core') = handle fd f.header f.payload core in
      let rest = serve fd fs core' in if written then rest else (false, core')

  -- One round of the loop at a complete frame.
  round :
      (fuel : ℕ) (slot : ClientSlot) (core : Core W) (f : Frame) (rest : List ℕ)
      → 12 ≤ buffer_capacity
      → IsValid buffer_capacity slot.rx_buffer
      → IsFrame buffer_capacity f
      → as_span slot.rx_buffer ≡ frame_bytes f ++ rest
      → let (written, core') = handle slot.fd f.header f.payload core in
        let (slot'', core'') = if written then (slot, core') else drop_client slot core' in
        frame_loop buffer_capacity handle (suc fuel) slot core
        ≡ frame_loop buffer_capacity handle fuel
            (record slot'' {
              rx_buffer =
                  consume buffer_capacity slot''.rx_buffer (header_size + f.header.payload_len);
            })
            core''
  unfolding frame_loop dispatch_frame
  round fuel slot core f rest wide valid frame span = rw (
    le→ltb slot.rx_buffer.size header_size (omega (arith, holds)),
    decoded,
    le→ltb (buffer_capacity - header_size) f.header.payload_len (omega arith),
    le→ltb slot.rx_buffer.size (header_size + f.header.payload_len) (omega (arith, holds)),
    payload_eq,
  )
    where
      decoded : decode_header (as_span slot.rx_buffer) ≡ ok f.header
      decoded =
          ap decode_header (span ∙ append_assoc (header_bytes f.header) f.payload rest)
          ∙ decode_header-front f.header (f.payload ++ rest) frame.fits frame.magic

      payload_eq : payload_of (as_span slot.rx_buffer) f.header ≡ f.payload
      payload_eq = ap (λ bs. payload_of bs f.header) span ∙ payload_of-frame f rest frame.stated

      holds : header_size + f.header.payload_len ≤ slot.rx_buffer.size
      holds = omega (
        arith,
        length-as_span buffer_capacity slot.rx_buffer valid,
        ap length span,
        length-append (frame_bytes f) rest,
        length-frame_bytes f,
      )

  -- The client is still there, and `rest` waits in its buffer.
  pub record Waits (slot : ClientSlot) (rest : List ℕ) (core : Core W) (out : ClientSlot × Core W)
      : Type 0 where
    pub same_fd : out.0.fd ≡ slot.fd
    pub left : as_span out.0.rx_buffer ≡ rest
    pub valid : IsValid buffer_capacity out.0.rx_buffer
    pub core_eq : out.1 ≡ core

  -- The client's slot is free and its buffer empty; its descriptor was deregistered and closed.
  pub record GivenUp (fd : Option ℕ) (core : Core W) (out : ClientSlot × Core W) : Type 0 where
    pub no_fd : out.0.fd ≡ none
    pub emptied : out.0.rx_buffer.size ≡ 0
    pub core_eq : out.1 ≡ hang_up fd core

  abbrev pub Served : ClientSlot → List ℕ → Bool × Core W → ClientSlot × Core W → Type 0
  Served slot rest (written, core) out =
      ((written ≡ true) × Waits slot rest core out) ⊎ ((written ≡ false) × GivenUp slot.fd core out)

  pub drop_client-GivenUp :
      (slot : ClientSlot) (core : Core W) → GivenUp slot.fd core (drop_client slot core)
  unfolding clear
  drop_client-GivenUp slot core =
      rw (drop_client_lem slot core) (record { no_fd = refl; emptied = refl; core_eq = refl })

  -- The loop stops at an empty buffer.
  loop_empty :
      (fuel : ℕ) (slot : ClientSlot) (core : Core W)
      → slot.rx_buffer.size ≡ 0
      → frame_loop buffer_capacity handle fuel slot core ≡ (slot, core)
  unfolding frame_loop
  loop_empty zero slot core e = refl
  loop_empty (suc fuel) slot core e = rw (lt→ltb slot.rx_buffer.size header_size (omega arith))

  -- At a part of a frame the loop stops; at a malformed start it gives the client up.
  pub loop_partial :
      (fuel : ℕ) (slot : ClientSlot) (core : Core W)
      → IsValid buffer_capacity slot.rx_buffer
      → IsPartial buffer_capacity (as_span slot.rx_buffer)
      → frame_loop buffer_capacity handle (suc fuel) slot core ≡ (slot, core)
  unfolding frame_loop
  loop_partial fuel slot core valid (in_header short) = rw (
      lt→ltb slot.rx_buffer.size header_size
        (omega (arith, length-as_span buffer_capacity slot.rx_buffer valid)))
  loop_partial fuel slot core valid (in_payload h long decoded fits short) = rw (
    le→ltb slot.rx_buffer.size header_size
        (omega (arith, length-as_span buffer_capacity slot.rx_buffer valid)),
    decoded,
    le→ltb (buffer_capacity - header_size) h.payload_len (omega arith),
    lt→ltb slot.rx_buffer.size (header_size + h.payload_len)
        (omega (arith, length-as_span buffer_capacity slot.rx_buffer valid)),
  )

  pub loop_malformed :
      (fuel : ℕ) (slot : ClientSlot) (core : Core W)
      → 12 ≤ buffer_capacity
      → IsValid buffer_capacity slot.rx_buffer
      → IsMalformed buffer_capacity (as_span slot.rx_buffer)
      → frame_loop buffer_capacity handle (suc fuel) slot core ≡ drop_client slot core
  unfolding frame_loop
  loop_malformed fuel slot core wide valid (undecodable e long decoded) = rw (
    le→ltb slot.rx_buffer.size header_size
        (omega (arith, length-as_span buffer_capacity slot.rx_buffer valid)),
    decoded,
  )
  loop_malformed fuel slot core wide valid (too_long h long decoded big) = rw (
    le→ltb slot.rx_buffer.size header_size
        (omega (arith, length-as_span buffer_capacity slot.rx_buffer valid)),
    decoded,
    lt→ltb (buffer_capacity - header_size) h.payload_len (omega arith),
  )

  module _ (wide : 12 ≤ buffer_capacity) (narrow : buffer_capacity ≤ 2 ^ 62) (slot : ClientSlot)
      (core : Core W) (f : Frame) (rest : List ℕ) (valid : IsValid buffer_capacity slot.rx_buffer)
      (frame : IsFrame buffer_capacity f)
      (span : as_span slot.rx_buffer ≡ frame_bytes f ++ rest) where
    -- The slot after a handled frame.
    abbrev pub moved_on : ClientSlot
    moved_on = record slot {
      rx_buffer = consume buffer_capacity slot.rx_buffer (header_size + f.header.payload_len);
    }

    pub round_written :
        (fuel : ℕ)
        → (handle slot.fd f.header f.payload core).0 ≡ true
        → frame_loop buffer_capacity handle (suc fuel) slot core
          ≡ frame_loop buffer_capacity handle fuel moved_on
              (handle slot.fd f.header f.payload core).1
    round_written fuel e = rw e at (round fuel slot core f rest wide valid frame span)

    pub round_failed :
        (fuel : ℕ)
        → (handle slot.fd f.header f.payload core).0 ≡ false
        → frame_loop buffer_capacity handle (suc fuel) slot core
          ≡ drop_client slot (handle slot.fd f.header f.payload core).1
    round_failed fuel e =
        rw e at (round fuel slot core f rest wide valid frame span)
        ∙ loop_empty fuel _ _ (ap (λ (v : FixedVector ℕ). v.size) still ∙ gone.emptied)
        ∙ ap (λ v. (record dead.0 { rx_buffer = v }, dead.1)) still
      where
        dead : ClientSlot × Core W
        dead = drop_client slot (handle slot.fd f.header f.payload core).1

        gone : GivenUp slot.fd (handle slot.fd f.header f.payload core).1 dead
        gone = drop_client-GivenUp slot (handle slot.fd f.header f.payload core).1

        still :
            consume buffer_capacity dead.0.rx_buffer (header_size + f.header.payload_len)
            ≡ dead.0.rx_buffer
        still =
            consume_empty buffer_capacity dead.0.rx_buffer _ (omega arith) gone.emptied
              (omega arith) (omega arith)

    total_in : header_size + f.header.payload_len ≤ slot.rx_buffer.size
    total_in = omega (
      arith,
      length-as_span buffer_capacity slot.rx_buffer valid,
      ap length span,
      length-append (frame_bytes f) rest,
      length-frame_bytes f,
    )

    pub moved_on_lem :
        (as_span moved_on.rx_buffer ≡ rest)
        × IsValid buffer_capacity moved_on.rx_buffer
        × (moved_on.rx_buffer.size < slot.rx_buffer.size)
    moved_on_lem =
        let (taken, still_valid, size) =
          consume_lem buffer_capacity slot.rx_buffer (header_size + f.header.payload_len) valid
            (omega arith) total_in in
        (
          taken
              ∙ ap (drop (header_size + f.header.payload_len)) span
              ∙ drop-length-append (header_size + f.header.payload_len) (frame_bytes f) rest
                  (omega (arith, length-frame_bytes f)),
          still_valid,
          omega (arith, total_in),
        )
