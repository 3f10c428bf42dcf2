-- ===== src/Server/Clients/Valid.antt =====
-- The invariant of the client table of include/axiom/server.hpp: every receive buffer is valid and
-- holds bytes.
use axiom_vm.Prelude.{
  ℕ, zero, suc, ◌+◌, ◌-◌, ◌≤◌, ◌^◌, ◌≡◌, refl, sym, ◌∙◌, subst, inl, inr, Bool, true, false, ◌&&◌,
  not, List, [], ◌∷◌, arith, set, All, IsByte, All-append, All-drop, if◌then◌else◌, ltb, leb,
  ltb→le, Bool-cases, length-set,
}
use axiom_vm.Common.{Result-cases}
use axiom_vm.FixedVector.{FixedVector, push_back, as_span, clear}
use axiom_vm.FixedVector.Refine.{IsValid}
use axiom_vm.Wire.Headers.{FrameHeader}
use axiom_vm.Wire.Codec.{decode_header, header_size}
use axiom_vm.Server.Slot.{ClientSlot, Core, drop_client, drop_client_lem}
use axiom_vm.Server.Consume.{consume, consume_lem, consume_empty}
use axiom_vm.Server.Frames.{Handler, dispatch_frame, frame_loop, process_client_frames, payload_of}
use axiom_vm.Server.Clients.{
  ReadAnswer, got, nothing, push_chunk, receive, close_if, serve_slot, is_free,
}
use axiom_vm.Server.Clients.Table.{Pushed, all_in, too_much, push_chunk-Pushed}

-- A receive buffer with the whole array behind it, that holds bytes.
pub record Holds (capacity : ℕ) (v : FixedVector ℕ) : Type 0 where
  pub valid : IsValid capacity v
  pub bytes : All IsByte (as_span v)

size-clear : (v : FixedVector ℕ) → (clear v).size ≡ 0
unfolding clear
size-clear v = refl

module _ (capacity : ℕ) where
  pub clear-Holds : (v : FixedVector ℕ) → IsValid capacity v → Holds capacity (clear v)
  unfolding clear as_span
  clear-Holds v valid = record {
    valid = record { storage = valid.storage; within = omega arith };
    bytes = tt;
  }

  consume-Holds :
      (v : FixedVector ℕ) (total : ℕ)
      → capacity ≤ 2 ^ 62
      → total ≤ v.size
      → Holds capacity v
      → Holds capacity (consume capacity v total)
  consume-Holds v total narrow le h =
      let (taken, valid, size) = consume_lem capacity v total h.valid (omega arith) le in
      record {
        valid = valid;
        bytes = subst (All IsByte) (sym taken) (All-drop IsByte total (as_span v) h.bytes);
      }

  push_chunk-IsValid :
      (bs : List ℕ) (v : FixedVector ℕ)
      → IsValid capacity v
      → IsValid capacity (push_chunk capacity v bs).0
  unfolding push_chunk push_back
  push_chunk-IsValid [] v valid = valid
  push_chunk-IsValid (b ∷ bs) v valid = elim (Bool-cases (leb capacity v.size)) [
    | inl e ↦ rw e valid
    | inr e ↦ rw e (
        push_chunk-IsValid bs (record { slots = set v.slots v.size b; size = v.size + 1 })
          (record { storage = length-set v.slots v.size b ∙ valid.storage; within = ground arith }))
  ]

-- What read(2) gives is bytes.
abbrev pub ReadsBytes : ReadAnswer → Type 0
ReadsBytes (got b bs) = All IsByte (b ∷ bs)
ReadsBytes nothing = Unit {0}

module _ {W : Type 0} (capacity : ℕ) (handle : Handler W) (narrow : capacity ≤ 2 ^ 62) where
  drop_client-Holds :
      (slot : ClientSlot) (core : Core W)
      → IsValid capacity slot.rx_buffer
      → Holds capacity (drop_client slot core).0.rx_buffer
  drop_client-Holds slot core valid =
      subst (λ (r : ClientSlot × Core W). Holds capacity r.0.rx_buffer)
        (sym (drop_client_lem slot core)) (clear-Holds capacity slot.rx_buffer valid)

  -- The buffer behind a handled frame.
  after_frame-Holds :
      (slot : ClientSlot) (header : FrameHeader) (core : Core W)
      → header_size + header.payload_len ≤ slot.rx_buffer.size
      → Holds capacity slot.rx_buffer
      → Holds capacity (
          consume capacity
            (dispatch_frame capacity handle slot header core).0.rx_buffer
            (header_size + header.payload_len))
  unfolding dispatch_frame
  after_frame-Holds slot header core le h =
      let (written, core') =
        handle slot.fd header (payload_of (as_span slot.rx_buffer) header) core in
      elim (Bool-cases written) [
        | inl e ↦ rw e (consume-Holds capacity slot.rx_buffer _ narrow le h)
        | inr e ↦
            rw (e, drop_client_lem slot core')
              (subst (Holds capacity)
                (sym (
                  consume_empty capacity (clear slot.rx_buffer) (header_size + header.payload_len)
                    (omega arith) (size-clear slot.rx_buffer) (omega arith)
                    (omega (arith, h.valid.within))))
                (clear-Holds capacity slot.rx_buffer h.valid))
      ]

  pub frame_loop-Holds :
      (fuel : ℕ) (slot : ClientSlot) (core : Core W)
      → Holds capacity slot.rx_buffer
      → Holds capacity (frame_loop capacity handle fuel slot core).0.rx_buffer
  unfolding frame_loop
  frame_loop-Holds zero slot core h = h
  frame_loop-Holds (suc fuel) slot core h =
      elim (Bool-cases (ltb slot.rx_buffer.size header_size)) [
        | inl e ↦ rw e h
        | inr e ↦ rw e (elim (Result-cases (decode_header (as_span slot.rx_buffer))) [
          | inr (x, f) ↦ rw f (drop_client-Holds slot core h.valid)
          | inl (header, f) ↦
              rw f (elim (Bool-cases (ltb (capacity - header_size) header.payload_len)) [
                | inl big ↦ rw big (drop_client-Holds slot core h.valid)
                | inr small ↦
                    rw small
                      (elim (Bool-cases
                        (ltb slot.rx_buffer.size (header_size + header.payload_len))) [
                          | inl part ↦ rw part h
                          | inr whole ↦ rw whole (
                              frame_loop-Holds fuel _ _
                                (after_frame-Holds slot header core (ltb→le _ _ whole) h))
                        ])
              ])
        ])
      ]

  receive-Holds :
      (b : ℕ) (bs : List ℕ) (slot : ClientSlot) (core : Core W)
      → All IsByte (b ∷ bs)
      → Holds capacity slot.rx_buffer
      → Holds capacity (receive capacity handle (got b bs) slot core).0.0.rx_buffer
  unfolding receive process_client_frames
  receive-Holds b bs slot core new h =
      of_pushed (push_chunk capacity slot.rx_buffer (b ∷ bs))
        (push_chunk-IsValid capacity (b ∷ bs) slot.rx_buffer h.valid)
        (push_chunk-Pushed capacity (b ∷ bs) slot.rx_buffer h.valid)
    where
      of_pushed :
          (out : FixedVector ℕ × Bool)
          → IsValid capacity out.0
          → Pushed capacity slot.rx_buffer (b ∷ bs) out
          → let (rx, whole) = out in
            let filled = record slot { rx_buffer = rx } in
            let received : (ClientSlot × Core W) × Bool =
              if whole
              then (process_client_frames capacity handle filled core, true)
              else (drop_client filled core, false) in
            Holds capacity received.0.0.rx_buffer
      of_pushed _ valid (all_in {v'} fits valid' span) =
          frame_loop-Holds (suc v'.size) (record slot { rx_buffer = v' }) core
            (record {
              valid = valid';
              bytes =
                  subst (All IsByte) (sym span)
                    (All-append IsByte (as_span slot.rx_buffer) (b ∷ bs) h.bytes new);
            })
      of_pushed _ valid (too_much {v'} over) =
          drop_client-Holds (record slot { rx_buffer = v' }) core valid

  close_if-Holds :
      (hangup : Bool) (out : ClientSlot × Core W)
      → Holds capacity out.0.rx_buffer
      → Holds capacity (close_if capacity handle hangup out).0.rx_buffer
  unfolding close_if
  close_if-Holds hangup (slot, core) h = elim (Bool-cases (not (is_free slot) && hangup)) [
    | inl e ↦ rw e (drop_client-Holds slot core h.valid)
    | inr e ↦ rw e h
  ]

  pub serve_slot-Holds :
      (readable hangup : Bool) (answer : ReadAnswer) (slot : ClientSlot) (core : Core W)
      → ReadsBytes answer
      → Holds capacity slot.rx_buffer
      → Holds capacity (serve_slot capacity handle readable hangup answer slot core).0.rx_buffer
  unfolding serve_slot receive
  serve_slot-Holds false hangup answer slot core new h = close_if-Holds hangup (slot, core) h
  serve_slot-Holds true hangup nothing slot core new h = drop_client-Holds slot core h.valid
  serve_slot-Holds true hangup (got b bs) slot core new h =
      let (after, goes_on) = receive capacity handle (got b bs) slot core in
      elim (Bool-cases goes_on) [
        | inl e ↦ rw e (close_if-Holds hangup after (receive-Holds b bs slot core new h))
        | inr e ↦ rw e (receive-Holds b bs slot core new h)
      ]
