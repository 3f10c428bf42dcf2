-- ===== src/Server/Clients/Table.antt =====
-- What a chunk of received bytes does to a client: `receive` over any way the bytes come in.
use axiom_vm.Prelude.{
  ℕ, ◌+◌, ◌≤◌, ◌<◌, ◌^◌, ◌≡◌, ap, sym, ◌∙◌, subst, inl, inr, Bool, true, false, List, [], ◌∷◌, ◌++◌,
  arith, length, take, set, All, IsByte, All-append, leb, Bool-cases, if◌then◌else◌, append_assoc,
  append-nil, take-set_next, length-set, length-append,
}
use axiom_vm.FixedVector.{FixedVector, push_back, as_span}
use axiom_vm.FixedVector.Refine.{IsValid, length-as_span}
use axiom_vm.Server.Slot.{ClientSlot, Core, drop_client}
use axiom_vm.Server.Frames.{Handler, process_client_frames}
use axiom_vm.Server.Frames.Round.{serve, GivenUp, drop_client-GivenUp}
use axiom_vm.Server.Frames.Served.{Split, Ended, process_client_frames-Ended}
use axiom_vm.Server.Clients.{got, push_chunk, receive}

module _ (capacity : ℕ) where
  -- A chunk has gone in whole, or it does not fit.
  pub data Pushed (v : FixedVector ℕ) (bs : List ℕ) : FixedVector ℕ × Bool → Type 0 where
    all_in :
        {v' : FixedVector ℕ}
        → v.size + length bs ≤ capacity
        → IsValid capacity v'
        → as_span v' ≡ as_span v ++ bs
        → Pushed v bs (v', true)
    too_much : {v' : FixedVector ℕ} → capacity < v.size + length bs → Pushed v bs (v', false)

  push_one : FixedVector ℕ → ℕ → FixedVector ℕ
  push_one v b = record v { slots = set v.slots v.size b; size = v.size + 1 }

  Pushed-next :
      (v : FixedVector ℕ) (b : ℕ) (bs : List ℕ) (out : FixedVector ℕ × Bool)
      → v.size < capacity
      → IsValid capacity v
      → Pushed (push_one v b) bs out
      → Pushed v (b ∷ bs) out
  unfolding push_one as_span
  Pushed-next v b bs _ h valid (all_in fits valid' span) = all_in (omega arith) valid' (
      span
      ∙ ap (λ xs. xs ++ bs) (take-set_next v.slots v.size b (omega (arith, valid.storage)))
      ∙ append_assoc (take v.size v.slots) (b ∷ []) bs)
  Pushed-next v b bs _ h valid (too_much over) = too_much (omega arith)

  pub push_chunk-Pushed :
      (bs : List ℕ) (v : FixedVector ℕ)
      → IsValid capacity v
      → Pushed v bs (push_chunk capacity v bs)
  unfolding push_chunk push_back push_one
  push_chunk-Pushed [] v valid = all_in (omega (arith, valid.within)) valid (sym (append-nil _))
  push_chunk-Pushed (b ∷ bs) v valid = elim (Bool-cases (leb capacity v.size)) [
    | inl e ↦ rw e (too_much (ground arith))
    | inr e ↦ rw e (
        Pushed-next v b bs (push_chunk capacity (push_one v b) bs) (ground arith) valid (
          push_chunk-Pushed bs (push_one v b) (record {
            storage = length-set v.slots v.size b ∙ valid.storage;
            within = ground arith;
          })))
  ]

module _ {W : Type 0} (buffer_capacity : ℕ) (handle : Handler W) where
  -- What `process_client_frames` makes of a client whose buffer holds some bytes.
  abbrev pub Handled : ClientSlot → Core W → List ℕ → ClientSlot × Core W → Type 0
  Handled slot core bytes out =
      (s : Split buffer_capacity bytes) × Ended buffer_capacity handle slot bytes s
        (serve buffer_capacity handle slot.fd s.frames core) out

  -- The two outcomes of a chunk, by the old and the new bytes together.
  pub data Received (slot : ClientSlot) (core : Core W) (bytes : List ℕ)
      : (ClientSlot × Core W) × Bool → Type 0 where
    -- They have room: the complete frames among them are handled.
    taken :
        {out : ClientSlot × Core W} (rx : FixedVector ℕ)
        → length bytes ≤ buffer_capacity
        → as_span rx ≡ bytes
        → Handled (record slot { rx_buffer = rx }) core bytes out
        → Received slot core bytes (out, true)
    -- They have not: no frame is handled, and the client is given up.
    overflown :
        {out : ClientSlot × Core W}
        → buffer_capacity < length bytes
        → GivenUp buffer_capacity handle slot.fd core out
        → Received slot core bytes (out, false)

  -- A chunk of bytes that arrives at a client whose receive buffer is valid, holds bytes and has a
  -- capacity from 12 to 2 ^ 62 joins the bytes that wait there: if both together exceed the buffer,
  -- the client is given up and no frame is handled; otherwise the frames of the joined bytes are
  -- handled in order as `process_client_frames` does.
  pub receive-Received :
      (slot : ClientSlot) (core : Core W) (b : ℕ) (bs : List ℕ)
      → 12 ≤ buffer_capacity
      → buffer_capacity ≤ 2 ^ 62
      → IsValid buffer_capacity slot.rx_buffer
      → All IsByte (as_span slot.rx_buffer)
      → All IsByte (b ∷ bs)
      → Received slot core
          (as_span slot.rx_buffer ++ (b ∷ bs))
          (receive buffer_capacity handle (got b bs) slot core)
  unfolding receive
  receive-Received slot core b bs wide narrow valid old new =
      of_pushed (push_chunk buffer_capacity slot.rx_buffer (b ∷ bs))
        (push_chunk-Pushed buffer_capacity (b ∷ bs) slot.rx_buffer valid)
    where
      bytes : List ℕ
      bytes = as_span slot.rx_buffer ++ (b ∷ bs)

      total : length bytes ≡ slot.rx_buffer.size + length (b ∷ bs)
      total = omega (
        arith,
        length-append (as_span slot.rx_buffer) (b ∷ bs),
        length-as_span buffer_capacity slot.rx_buffer valid,
      )

      of_pushed :
          (out : FixedVector ℕ × Bool)
          → Pushed buffer_capacity slot.rx_buffer (b ∷ bs) out
          → Received slot core bytes (
              let (rx, whole) = out in
              let filled = record slot { rx_buffer = rx } in
              if whole
              then (process_client_frames buffer_capacity handle filled core, true)
              else (drop_client filled core, false))
      of_pushed _ (all_in {v'} fits valid' span) =
          let filled = record slot { rx_buffer = v' } in
          taken v' (omega (arith, total)) span (
            subst
              (λ bs'.
                Handled filled core bs' (process_client_frames buffer_capacity handle filled core))
              span
              (process_client_frames-Ended buffer_capacity handle filled core wide narrow valid' (
                subst (All IsByte) (sym span)
                  (All-append IsByte (as_span slot.rx_buffer) (b ∷ bs) old new))))
      of_pushed _ (too_much {v'} over) =
          overflown (omega (arith, total))
            (drop_client-GivenUp buffer_capacity handle (record slot { rx_buffer = v' }) core)
