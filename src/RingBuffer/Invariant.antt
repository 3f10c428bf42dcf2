-- ===== src/RingBuffer/Invariant.antt =====
-- The representation invariant of the ring. No array is longer than 2 ^ 63 bytes.
use axiom_vm.Prelude.{
  ℕ, ◌+◌, ◌-◌, ◌%◌, ◌^◌, ◌≤◌, ◌<◌, ◌≡◌, List, [], ◌∷◌, arith, length, length-set, length-replicate,
  inl, inr, ap, ◌⊎◌,
}
use native.Mathlib.Nat.{mod-eq_of_lt, mod-eq-sub-mod, mod-add-mod, mod-lt}
use native.Mathlib.Decide.{dec_lt}
use axiom_vm.RingBuffer.{RingBuffer, add_size, empty, push_byte, push_all, clear}

pub record IsValid (capacity : ℕ) (r : RingBuffer) : Type 0 where
  pub positive : 0 < capacity
  pub narrow : capacity ≤ 2 ^ 63
  pub storage : length r.storage ≡ capacity
  pub head_in : r.head < capacity
  pub size_in : r.size ≤ capacity
  pub tail_at : r.tail ≡ (r.head + r.size) % capacity

-- `%` of a sum of an index and an offset that go round at most once.
pub wrap : (c x : ℕ) → x < c + c → ((x < c) × (x % c ≡ x)) ⊎ ((c ≤ x) × (x % c ≡ x - c))
wrap c x h = elim (dec_lt x c) [
  | yes p ↦ inl (p, mod-eq_of_lt p)
  | no p ↦ inr (
    omega arith,
    omega (
      arith,
      mod-eq-sub-mod {n = x} {m = c} (omega arith),
      mod-eq_of_lt {n = x - c} {m = c} (omega arith),
    ),
  )
]

-- One step on, then an offset, is the offset from one step later.
pub shift : (c h i : ℕ) → ((h + 1) % c + i) % c ≡ (h + (i + 1)) % c
shift c h i = let e : h + 1 + i ≡ h + (i + 1) = omega arith in rw mod-add-mod (ap (λ k. k % c) e)

pub step : (c h n : ℕ) → ((h + n) % c + 1) % c ≡ (h + (n + 1)) % c
step c h n = let e : h + n + 1 ≡ h + (n + 1) = omega arith in rw mod-add-mod (ap (λ k. k % c) e)

-- Two offsets less than the capacity apart are two places.
pub places_ne : (c h j n : ℕ) → h < c → n ≤ c → j < n → n < c + j → ¬ ((h + j) % c ≡ (h + n) % c)
places_ne c h j n hh hn hj hd e = elim (wrap c (h + j) (omega arith)) [
  | inl a ↦ elim (wrap c (h + n) (omega arith)) [ inl b ↦ omega arith | inr b ↦ omega arith ]
  | inr a ↦ elim (wrap c (h + n) (omega arith)) [ inl b ↦ omega arith | inr b ↦ omega arith ]
]

module _ (capacity : ℕ) where
  pub empty-IsValid : 0 < capacity → capacity ≤ 2 ^ 63 → IsValid capacity (empty capacity)
  unfolding empty
  empty-IsValid pos narrow = record {
    positive = pos;
    narrow = narrow;
    storage = length-replicate capacity 0;
    head_in = pos;
    size_in = omega arith;
    tail_at = omega (arith, mod-eq_of_lt {n = 0} {m = capacity} pos);
  }

  -- Where the next byte goes lies in the storage, and no index leaves `size_t`.
  pub indices :
      (r : RingBuffer)
      → IsValid capacity r
      → (r.tail < capacity)
        × (add_size r.tail 1 ≡ r.tail + 1)
        × (add_size r.head 1 ≡ r.head + 1)
        × (add_size r.size 1 ≡ r.size + 1)
  indices r v = (small, omega arith, omega arith, omega arith)
    where
      small : r.tail < capacity
      small = rw v.tail_at (mod-lt _ v.positive)

  -- Writing a byte keeps the invariant.
  pub push_byte-IsValid :
      (r : RingBuffer) (b : ℕ) → IsValid capacity r → IsValid capacity (push_byte capacity r b)
  unfolding push_byte
  push_byte-IsValid r b v = ground (
    arith,
    indices r v,
    length-set r.storage r.tail b,
    step capacity r.head r.size,
    shift capacity r.head r.size,
    mod-lt (r.head + 1) v.positive,
  )

  pub push_all-IsValid :
      (bs : List ℕ) (r : RingBuffer)
      → IsValid capacity r
      → IsValid capacity (push_all capacity r bs)
  unfolding push_all
  push_all-IsValid [] r v = v
  push_all-IsValid (b ∷ bs) r v =
      push_all-IsValid bs (push_byte capacity r b) (push_byte-IsValid r b v)

  pub clear-IsValid : (r : RingBuffer) → IsValid capacity r → IsValid capacity (clear r)
  unfolding clear
  clear-IsValid r v = ground (arith, mod-eq_of_lt {n = 0 + 0} {m = capacity} (omega arith))
