-- ===== src/RingBuffer/Contents.antt =====
-- What a valid ring holds: the last `capacity` bytes written, oldest first.
use axiom_vm.Prelude.{
  ℕ, zero, suc, ◌+◌, ◌-◌, ◌%◌, ◌≤◌, ◌<◌, ◌≡◌, refl, ap, ap₂, sym, ◌∙◌, List, [], ◌∷◌, ◌++◌, arith,
  length, length-append, length-drop, get_or, set, get_or-set_self, get_or-set_ne, drop, Bool-cases,
  inl, inr, ltb, ltb→lt, ltb→le, le→ltb, lt→ltb, append_assoc, append-nil, drop-append_le,
  drop-drop,
}
use native.Mathlib.Nat.{mod-lt}
use axiom_vm.RingBuffer.{RingBuffer, add_size, push_byte, push_all}
use axiom_vm.RingBuffer.Invariant.{IsValid, shift, places_ne, push_byte-IsValid}

-- The bytes at the offsets i, …, i + n - 1 from the head.
module _ (capacity : ℕ) where
  abbrev pub bytes_at : List ℕ → ℕ → ℕ → ℕ → List ℕ
  bytes_at storage head i zero = []
  bytes_at storage head i (suc n) =
      get_or storage ((head + i) % capacity) 0 ∷ bytes_at storage head (i + 1) n

  abbrev pub contents : RingBuffer → List ℕ
  contents r = bytes_at r.storage r.head 0 r.size

  pub length-bytes_at : (s : List ℕ) (h i n : ℕ) → length (bytes_at s h i n) ≡ n
  length-bytes_at s h i zero = refl
  length-bytes_at s h i (suc n) = ap suc (length-bytes_at s h (i + 1) n)

  -- A window that is a byte longer ends with that byte.
  bytes_at-suc :
      (s : List ℕ) (h i n : ℕ)
      → bytes_at s h i (suc n) ≡ bytes_at s h i n ++ (get_or s ((h + (i + n)) % capacity) 0 ∷ [])
  bytes_at-suc s h i zero = let e : i + 0 ≡ i = omega arith in rw e
  bytes_at-suc s h i (suc n) =
      let e : i + 1 + n ≡ i + suc n = omega arith in
      ap (◌∷◌ (get_or s ((h + i) % capacity) 0)) (
        bytes_at-suc s h (i + 1) n
        ∙ ap (λ k. bytes_at s h (i + 1) n ++ (get_or s ((h + k) % capacity) 0 ∷ [])) e)

  -- A window from one step later is the window of the next head.
  bytes_at-shift :
      (s : List ℕ) (h i n : ℕ) → bytes_at s ((h + 1) % capacity) i n ≡ bytes_at s h (i + 1) n
  bytes_at-shift s h i zero = refl
  bytes_at-shift s h i (suc n) =
      ap₂ ◌∷◌ (ap (λ k. get_or s k 0) (shift capacity h i)) (bytes_at-shift s h (i + 1) n)

  -- A byte written at an offset `m` outside a window is not seen in it.
  bytes_at-set :
      (s : List ℕ) (h i n m b : ℕ)
      → h < capacity
      → m ≤ capacity
      → i + n ≤ m
      → m < capacity + i
      → bytes_at (set s ((h + m) % capacity) b) h i n ≡ bytes_at s h i n
  bytes_at-set s h i zero m b hh hm hn hd = refl
  bytes_at-set s h i (suc n) m b hh hm hn hd =
      ap₂ ◌∷◌
        (get_or-set_ne s ((h + m) % capacity) ((h + i) % capacity) b 0
          (λ e. places_ne capacity h i m hh hm (omega arith) (omega arith) (sym e)))
        (bytes_at-set s h (i + 1) n m b hh hm (omega arith) (omega arith))

  extend :
      (s : List ℕ) (h n b : ℕ)
      → length s ≡ capacity
      → h < capacity
      → n < capacity
      → bytes_at (set s ((h + n) % capacity) b) h 0 (suc n) ≡ bytes_at s h 0 n ++ (b ∷ [])
  extend s h n b hs hh hn =
      bytes_at-suc (set s ((h + n) % capacity) b) h 0 n
      ∙ ap₂ (λ xs y. xs ++ (y ∷ []))
          (bytes_at-set s h 0 n n b hh (omega arith) (omega arith) (omega arith))
          (ap (λ k. get_or (set s ((h + n) % capacity) b) ((h + k) % capacity) 0) zero_add
            ∙ get_or-set_self s ((h + n) % capacity) b 0 (rw hs (mod-lt (h + n) (omega arith))))
    where
      zero_add : 0 + n ≡ n
      zero_add = omega arith

  replace :
      (s : List ℕ) (h m b : ℕ)
      → length s ≡ capacity
      → h < capacity
      → suc m ≡ capacity
      → bytes_at (set s ((h + suc m) % capacity) b) ((h + 1) % capacity) 0 (suc m)
        ≡ bytes_at s h 1 m ++ (b ∷ [])
  replace s h m b hs hh hm =
      bytes_at-shift (set s ((h + suc m) % capacity) b) h 0 (suc m)
      ∙ ap (λ k. bytes_at (set s ((h + suc m) % capacity) b) h k (suc m)) one
      ∙ bytes_at-suc (set s ((h + suc m) % capacity) b) h 1 m
      ∙ ap₂ (λ xs y. xs ++ (y ∷ []))
          (bytes_at-set s h 1 m (suc m) b hh (omega arith) (omega arith) (omega arith))
          (ap (λ k. get_or (set s ((h + suc m) % capacity) b) ((h + k) % capacity) 0) next
            ∙ get_or-set_self s ((h + suc m) % capacity) b 0
                (rw hs (mod-lt (h + suc m) (omega arith))))
    where
      one : 0 + 1 ≡ 1
      one = refl

      next : 1 + m ≡ suc m
      next = omega arith

-- The last `n` elements of a list.
abbrev pub last {ℓ} : {A : Type ℓ} → ℕ → List A → List A
last n xs = drop (length xs - n) xs

-- What was dropped before an append would have been dropped after it.
last-append {ℓ} :
    {A : Type ℓ} (n : ℕ) (xs ys : List A) → last n (last n xs ++ ys) ≡ last n (xs ++ ys)
last-append n xs ys =
    ap (last n) (sym (drop-append_le k xs ys (omega arith)))
    ∙ drop-drop (length (drop k (xs ++ ys)) - n) k (xs ++ ys)
    ∙ ap (λ j. drop j (xs ++ ys)) same
  where
    k : ℕ
    k = length xs - n

    same : k + (length (drop k (xs ++ ys)) - n) ≡ length (xs ++ ys) - n
    same = omega (arith, length-drop k (xs ++ ys), length-append xs ys)

module _ (capacity : ℕ) where
  -- With room left a byte is added at the end.
  push_byte-room :
      (r : RingBuffer) (b : ℕ)
      → IsValid capacity r
      → r.size < capacity
      → contents capacity (push_byte capacity r b) ≡ contents capacity r ++ (b ∷ [])
  unfolding push_byte
  push_byte-room r b v room = rw (lt→ltb r.size capacity room) (
      ap₂ (λ t n. bytes_at capacity (set r.storage t b) r.head 0 n) v.tail_at grown
      ∙ extend capacity r.storage r.head r.size b v.storage v.head_in room)
    where
      grown : add_size r.size 1 ≡ suc r.size
      grown = omega arith

  -- A full ring loses its oldest byte to the new one.
  push_byte-full :
      (m : ℕ) (r : RingBuffer) (b : ℕ)
      → IsValid capacity r
      → suc m ≡ capacity
      → r.size ≡ suc m
      → contents capacity (push_byte capacity r b)
        ≡ drop 1 (bytes_at capacity r.storage r.head 0 (suc m)) ++ (b ∷ [])
  unfolding push_byte
  push_byte-full m r b v cap full = rw (le→ltb r.size capacity (omega arith)) (
      ap₂ (λ t h. bytes_at capacity (set r.storage t b) (h % capacity) 0 r.size)
        (v.tail_at ∙ ap (λ n. (r.head + n) % capacity) full) head_step
      ∙ ap
          (bytes_at capacity (set r.storage ((r.head + suc m) % capacity) b)
            ((r.head + 1) % capacity) 0)
          full
      ∙ replace capacity r.storage r.head m b v.storage v.head_in cap)
    where
      head_step : add_size r.head 1 ≡ r.head + 1
      head_step = omega arith

  push_byte-contents :
      (r : RingBuffer) (b : ℕ)
      → IsValid capacity r
      → contents capacity (push_byte capacity r b) ≡ last capacity (contents capacity r ++ (b ∷ []))
  push_byte-contents r b v = elim (Bool-cases (ltb r.size capacity)) [
    | inl e ↦
        push_byte-room r b v (ltb→lt _ _ e)
        ∙ ap (λ k. drop k (contents capacity r ++ (b ∷ []))) (sym (keeps (ltb→lt _ _ e)))
    | inr e ↦
        push_byte-full (capacity - 1) r b v (omega arith) (whole (ltb→le _ _ e))
        ∙ ap (λ n. drop 1 (bytes_at capacity r.storage r.head 0 n) ++ (b ∷ []))
            (sym (whole (ltb→le _ _ e)))
        ∙ sym (
            drop-append_le 1 (contents capacity r) (b ∷ [])
              (rw (length-bytes_at capacity r.storage r.head 0 r.size) (filled (ltb→le _ _ e))))
        ∙ ap (λ k. drop k (contents capacity r ++ (b ∷ []))) (sym (loses (ltb→le _ _ e)))
  ]
    where
      open r use {storage, head, size}

      len : length (contents capacity r ++ (b ∷ [])) ≡ size + 1
      len = omega (
        arith,
        length-append (contents capacity r) (b ∷ []),
        length-bytes_at capacity storage head 0 size,
      )

      keeps : size < capacity → length (contents capacity r ++ (b ∷ [])) - capacity ≡ 0
      keeps h = omega (arith, len)

      whole : capacity ≤ size → size ≡ suc (capacity - 1)
      whole h = omega arith

      filled : capacity ≤ size → 1 ≤ size
      filled h = omega arith

      loses : capacity ≤ size → length (contents capacity r ++ (b ∷ [])) - capacity ≡ 1
      loses h = omega (arith, len)

  -- After any bytes are written to a valid ring, it holds the last `capacity` of what it held and
  -- what was written.
  pub push_all-contents :
      (bs : List ℕ) (r : RingBuffer)
      → IsValid capacity r
      → contents capacity (push_all capacity r bs) ≡ last capacity (contents capacity r ++ bs)
  unfolding push_all
  push_all-contents [] r v = sym (rw append-nil (ap (λ k. drop k (contents capacity r)) none_lost))
    where
      none_lost : length (contents capacity r) - capacity ≡ 0
      none_lost = omega (arith, length-bytes_at capacity r.storage r.head 0 r.size)
  push_all-contents (b ∷ bs) r v =
      push_all-contents bs (push_byte capacity r b) (push_byte-IsValid capacity r b v)
      ∙ ap (λ xs. last capacity (xs ++ bs)) (push_byte-contents r b v)
      ∙ last-append capacity (contents capacity r ++ (b ∷ [])) bs
      ∙ ap (last capacity) (append_assoc (contents capacity r) (b ∷ []) bs)
