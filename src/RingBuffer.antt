-- ===== src/RingBuffer.antt =====
-- include/axiom/ring_buffer.hpp: a ring that keeps the last bytes written to it.
pub mod Invariant
pub mod Contents
pub mod Laws
use axiom_vm.Prelude.{
  ℕ, zero, suc, ◌+◌, ◌-◌, ◌%◌, ◌^◌, min, Bool, true, false, List, [], ◌∷◌, if◌then◌else◌, ltb,
  length, get_or, set, replicate,
}

-- `RingBuffer<Capacity>`
pub record RingBuffer : Type 0 where
  pub storage : List ℕ
  pub head : ℕ
  pub tail : ℕ
  pub size : ℕ
  pub total_written : ℕ

-- `size_t` addition
abbrev pub add_size : ℕ → ℕ → ℕ
add_size a b = (a + b) % 2 ^ 64

module _ (capacity : ℕ) where
  unfoldable pub empty : RingBuffer
  empty = record { storage = replicate capacity 0; head = 0; tail = 0; size = 0; total_written = 0 }

  unfoldable pub push_byte : RingBuffer → ℕ → RingBuffer
  push_byte r b =
      if ltb r.size capacity
      then record r {
        storage = set r.storage r.tail b;
        tail = add_size r.tail 1 % capacity;
        size = add_size r.size 1;
        total_written = add_size r.total_written 1;
      }
      else record r {
        storage = set r.storage r.tail b;
        tail = add_size r.tail 1 % capacity;
        head = add_size r.head 1 % capacity;
        total_written = add_size r.total_written 1;
      }

  -- the loop of `write`, which then returns the number of bytes given
  unfoldable pub push_all : RingBuffer → List ℕ → RingBuffer
  push_all r [] = r
  push_all r (b ∷ bs) = push_all (push_byte r b) bs

  unfoldable pub write : RingBuffer → List ℕ → RingBuffer × ℕ
  unfolding push_all push_byte
  write r bytes = (push_all r bytes, length bytes)

  -- the loop of `linearize` over `i`, with `n` rounds left
  unfoldable pub copy_out : RingBuffer → ℕ → ℕ → List ℕ → List ℕ
  copy_out r zero i dest = dest
  copy_out r (suc n) i dest =
      copy_out r n (i + 1) (set dest i (get_or r.storage (add_size r.head i % capacity) 0))

  -- The number of bytes copied, and the destination afterwards.
  unfoldable pub linearize : RingBuffer → List ℕ → ℕ × List ℕ
  unfolding copy_out
  linearize r dest = let to_copy = min (length dest) r.size in (to_copy, copy_out r to_copy 0 dest)

  unfoldable pub is_truncated : RingBuffer → Bool
  is_truncated r = ltb capacity r.total_written

  unfoldable pub dropped_bytes : RingBuffer → ℕ
  unfolding is_truncated
  dropped_bytes r = if is_truncated r then r.total_written - capacity else 0

unfoldable pub clear : RingBuffer → RingBuffer
clear r = record r { head = 0; tail = 0; size = 0; total_written = 0 }
