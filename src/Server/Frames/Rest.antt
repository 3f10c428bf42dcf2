-- ===== src/Server/Frames/Rest.antt =====
-- The rounds of the loop of `process_client_frames` up to what follows the complete frames.
use axiom_vm.Prelude.{
  ℕ, zero, suc, ◌≤◌, ◌<◌, ◌^◌, ◌≡◌, refl, ◌⊎◌, inl, inr, Bool, true, false, List, [], ◌∷◌, arith,
  All, Bool-cases,
}
use axiom_vm.FixedVector.{as_span}
use axiom_vm.FixedVector.Refine.{IsValid}
use axiom_vm.Server.Slot.{ClientSlot, Core}
use axiom_vm.Server.Frames.{Handler, frame_loop}
use axiom_vm.Server.Frames.Stream.{Frame, stream, IsFrame}
use axiom_vm.Server.Frames.Round.{
  serve, GivenUp, drop_client-GivenUp, moved_on, round_written, round_failed, moved_on_lem,
}

module _ {W : Type 0} (buffer_capacity : ℕ) (handle : Handler W) where
  -- The frames at the front of the buffer are handled in turn; then the loop is at what follows
  -- them, or has given the client up at a failed response.
  abbrev pub AtRest : ℕ → ClientSlot → List ℕ → Core W → Bool × Core W → Type 0
  AtRest fuel slot rest core (written, core') =
      ((written ≡ true)
        × (fuel' : ℕ) × (slot' : ClientSlot) × (slot'.fd ≡ slot.fd)
        × (as_span slot'.rx_buffer ≡ rest)
        × IsValid buffer_capacity slot'.rx_buffer
        × (frame_loop buffer_capacity handle fuel slot core
            ≡ frame_loop buffer_capacity handle (suc fuel') slot' core'))
      ⊎ ((written ≡ false)
          × GivenUp buffer_capacity handle slot.fd core'
              (frame_loop buffer_capacity handle fuel slot core))

  pub loop-AtRest :
      (fs : List Frame) (fuel : ℕ) (slot : ClientSlot) (core : Core W) (rest : List ℕ)
      → 12 ≤ buffer_capacity
      → buffer_capacity ≤ 2 ^ 62
      → IsValid buffer_capacity slot.rx_buffer
      → All (IsFrame buffer_capacity) fs
      → as_span slot.rx_buffer ≡ stream fs rest
      → slot.rx_buffer.size < fuel
      → AtRest fuel slot rest core (serve buffer_capacity handle slot.fd fs core)
  unfolding serve
  loop-AtRest [] zero slot core rest wide narrow valid frames span enough = absurd (omega arith)
  loop-AtRest [] (suc fuel) slot core rest wide narrow valid frames span enough =
      inl (refl, fuel, slot, refl, span, valid, refl)
  loop-AtRest (f ∷ fs) zero slot core rest wide narrow valid frames span enough =
      absurd (omega arith)
  loop-AtRest (f ∷ fs) (suc fuel) slot core rest wide narrow valid frames span enough =
      elim (Bool-cases (handle slot.fd f.header f.payload core).0) [
        | inl e ↦
            let same =
              round_written buffer_capacity handle wide narrow slot core f (stream fs rest) valid
                frames.0 span fuel e in
            let (taken, still_valid, smaller) =
              moved_on_lem buffer_capacity handle wide narrow slot core f (stream fs rest) valid
                frames.0 span in
            rw (e, same)
              (loop-AtRest fs fuel
                (moved_on buffer_capacity handle wide narrow slot core f (stream fs rest) valid
                  frames.0 span)
                (handle slot.fd f.header f.payload core).1 rest wide narrow still_valid frames.1
                taken (omega arith))
        | inr e ↦
            rw
              (
                e,
                round_failed buffer_capacity handle wide narrow slot core f (stream fs rest) valid
                    frames.0 span fuel e,
              )
              (inr (
                refl,
                drop_client-GivenUp buffer_capacity handle slot
                    (handle slot.fd f.header f.payload core).1,
              ))
      ]
