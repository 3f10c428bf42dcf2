-- ===== src/Server/Consume.antt =====
-- The end of the loop body of `process_client_frames`: the handled frame leaves the buffer.
use axiom_vm.Prelude.{
  ℕ, zero, suc, ◌+◌, ◌-◌, ◌%◌, ◌^◌, ◌≤◌, ◌<◌, min, ◌≡◌, ap, sym, ◌∙◌, false, ◌&&◌, List, ◌++◌,
  arith, length, take, drop, if◌then◌else◌, ltb, leb, length-append, length-take, length-drop,
  take-length-append, drop-all, drop-take, Bool-cases, inl, inr, lt→ltb, le→leb, ltb→le, ltb→lt,
}
use axiom_vm.FixedVector.{FixedVector, pop_back, as_span}
use axiom_vm.FixedVector.Refine.{IsValid}

-- `std::memmove(data, data + from, count)`
unfoldable pub memmove : FixedVector ℕ → ℕ → ℕ → FixedVector ℕ
memmove v from count = record v { slots = take count (drop from v.slots) ++ drop count v.slots }

-- `while (size() > remaining) pop_back();`, with fuel for the rounds
unfoldable pub pop_loop : ℕ → FixedVector ℕ → ℕ → FixedVector ℕ
pop_loop zero v remaining = v
pop_loop (suc fuel) v remaining =
    if ltb remaining v.size then pop_loop fuel (pop_back v).0 remaining else v

-- The loop ends with the size brought down to `remaining`, and touches no element.
pop_loop_lem :
    (fuel : ℕ) (v : FixedVector ℕ) (remaining : ℕ)
    → v.size ≤ fuel
    → pop_loop fuel v remaining ≡ record v { size = min v.size remaining }
unfolding pop_loop pop_back
pop_loop_lem zero v remaining h = ap (λ n. record v { size = n }) (omega arith)
pop_loop_lem (suc fuel) v remaining h =
    ground (arith, pop_loop_lem fuel (record v { size = v.size - 1 }) remaining)

module _ (buffer_capacity : ℕ) where
  settle : FixedVector ℕ → ℕ → ℕ → FixedVector ℕ
  unfolding memmove pop_loop
  settle v total_frame_len remaining =
      let moved =
        if ltb 0 remaining && leb remaining buffer_capacity
        then memmove v total_frame_len remaining
        else v in
      pop_loop moved.size moved remaining

  -- `remaining` is a `size_t`, and wraps where a handler has emptied the buffer.
  unfoldable pub consume : FixedVector ℕ → ℕ → FixedVector ℕ
  unfolding settle
  consume v total_frame_len =
      settle v total_frame_len ((v.size + 2 ^ 64 - total_frame_len) % 2 ^ 64)

  settle-moved :
      (v : FixedVector ℕ) (total r : ℕ)
      → 0 < r
      → r ≤ buffer_capacity
      → settle v total r
        ≡ record { slots = take r (drop total v.slots) ++ drop r v.slots; size = min v.size r }
  unfolding settle memmove
  settle-moved v total r pos le =
      rw (lt→ltb 0 r pos, le→leb r buffer_capacity le)
        (pop_loop_lem v.size (memmove v total r) r (omega arith))

  settle-kept :
      (v : FixedVector ℕ) (total r : ℕ)
      → (ltb 0 r && leb r buffer_capacity) ≡ false
      → settle v total r ≡ record v { size = min v.size r }
  unfolding settle
  settle-kept v total r e = rw e (pop_loop_lem v.size v r (omega arith))

  -- A frame that lies in a valid buffer of at most 2 ^ 63 places is taken off its front, the bytes
  -- behind it move up, and the buffer stays valid.
  pub consume_lem :
      (v : FixedVector ℕ) (total : ℕ)
      → IsValid buffer_capacity v
      → buffer_capacity ≤ 2 ^ 63
      → total ≤ v.size
      → (as_span (consume v total) ≡ drop total (as_span v))
        × IsValid buffer_capacity (consume v total)
        × ((consume v total).size ≡ v.size - total)
  unfolding as_span consume
  consume_lem v total valid narrow le = rw exact (elim (Bool-cases (ltb 0 r)) [
    | inl e ↦ rw (settle-moved v total r (ltb→lt _ _ e) (omega arith)) (
      ap (λ k. take k moved) smaller
          ∙ take-length-append r (take r (drop total v.slots)) (drop r v.slots) front
          ∙ sym (drop-take total r v.slots)
          ∙ ap (λ k. drop total (take k v.slots)) parts,
      record { storage = full; within = omega arith },
      smaller,
    )
    | inr e ↦ rw (settle-kept v total r (rw e)) (
      ap (λ k. take k v.slots) (gone e)
          ∙ sym (
              drop-all total (take v.size v.slots)
                (omega (arith, length-take v.size v.slots, ltb→le _ _ e))),
      record { storage = valid.storage; within = omega arith },
      smaller,
    )
  ])
    where
      r : ℕ
      r = v.size - total

      exact : (v.size + 2 ^ 64 - total) % 2 ^ 64 ≡ v.size - total
      exact = omega arith

      smaller : min v.size r ≡ r
      smaller = omega arith

      parts : total + r ≡ v.size
      parts = omega arith

      front : length (take r (drop total v.slots)) ≡ r
      front = omega (arith, length-take r (drop total v.slots), length-drop total v.slots)

      moved : List ℕ
      moved = take r (drop total v.slots) ++ drop r v.slots

      full : length moved ≡ buffer_capacity
      full = omega (
        arith,
        length-append (take r (drop total v.slots)) (drop r v.slots),
        front,
        length-drop r v.slots,
      )

      gone : ltb 0 r ≡ false → min v.size r ≡ 0
      gone e = omega (arith, ltb→le 0 r e)

  -- Where a handler has emptied the buffer nothing is moved and the buffer stays empty.
  pub consume_empty :
      (v : FixedVector ℕ) (total : ℕ)
      → buffer_capacity ≤ 2 ^ 63
      → v.size ≡ 0
      → 0 < total
      → total < 2 ^ 63
      → consume v total ≡ v
  unfolding consume
  consume_empty v total narrow none_left pos small =
      settle-kept v total r (ground arith) ∙ ap (λ k. record v { size = k }) (omega arith)
    where
      r : ℕ
      r = (v.size + 2 ^ 64 - total) % 2 ^ 64
