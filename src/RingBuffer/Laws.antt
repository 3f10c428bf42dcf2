-- ===== src/RingBuffer/Laws.antt =====
-- What a client reads from the ring.
use axiom_vm.Prelude.{
  ℕ, zero, suc, ◌+◌, ◌-◌, ◌%◌, ◌^◌, ◌≤◌, ◌<◌, min, ◌≡◌, refl, ap, ap₂, sym, ◌∙◌, List, [], ◌∷◌,
  ◌++◌, arith, length, length-set, length-drop, get_or, set, take, drop, ltb, append_assoc,
  take-set_next, drop-set, take-all, take-append-drop,
}
use axiom_vm.RingBuffer.{
  RingBuffer, add_size, push_byte, push_all, write, clear, copy_out, linearize, is_truncated,
  dropped_bytes,
}
use axiom_vm.RingBuffer.Invariant.{IsValid, clear-IsValid, push_all-IsValid}
use axiom_vm.RingBuffer.Contents.{bytes_at, contents, last, length-bytes_at, push_all-contents}

module _ (capacity : ℕ) where
  take-bytes_at :
      (k n : ℕ) (s : List ℕ) (h i : ℕ)
      → k ≤ n
      → take k (bytes_at capacity s h i n) ≡ bytes_at capacity s h i k
  take-bytes_at zero n s h i le = refl
  take-bytes_at (suc k) zero s h i le = elim le [ ]
  take-bytes_at (suc k) (suc n) s h i le =
      ap (◌∷◌ (get_or s ((h + i) % capacity) 0)) (take-bytes_at k n s h (i + 1) (omega arith))

  -- The loop of `linearize` overwrites the places i, …, i + n - 1 of the destination.
  copy_out_lem :
      (r : RingBuffer) (n i : ℕ) (dest : List ℕ)
      → IsValid capacity r
      → i + n ≤ length dest
      → i + n ≤ r.size
      → copy_out capacity r n i dest
        ≡ take i dest ++ (bytes_at capacity r.storage r.head i n ++ drop (i + n) dest)
  unfolding copy_out
  copy_out_lem r zero i dest v hd hs =
      let e : i ≡ i + 0 = omega arith in
      sym (take-append-drop i dest) ∙ ap (λ k. take i dest ++ drop k dest) e
  copy_out_lem r (suc n) i dest v hd hs =
      ap (λ k. copy_out capacity r n (i + 1) (set dest i (get_or r.storage (k % capacity) 0)))
        no_wrap
      ∙ copy_out_lem r n (i + 1) (set dest i b) v (omega (arith, length-set dest i b)) (omega arith)
      ∙ ap₂ (λ xs ys. xs ++ (bytes_at capacity r.storage r.head (i + 1) n ++ ys))
          (take-set_next dest i b (omega arith))
          (drop-set (i + 1 + n) dest i b (omega arith) ∙ ap (λ k. drop k dest) same)
      ∙ append_assoc (take i dest) (b ∷ [])
          (bytes_at capacity r.storage r.head (i + 1) n ++ drop (i + suc n) dest)
    where
      b : ℕ
      b = get_or r.storage ((r.head + i) % capacity) 0

      no_wrap : add_size r.head i ≡ r.head + i
      no_wrap = omega arith

      same : i + 1 + n ≡ i + suc n
      same = omega arith

  -- `linearize` copies as many of the stored bytes as fit, oldest first, to the front of the
  -- destination, leaves the rest of it alone, and returns the number copied.
  pub linearize_lem :
      (r : RingBuffer) (dest : List ℕ)
      → IsValid capacity r
      → let n = min (length dest) r.size in
        linearize capacity r dest ≡ (n, take n (contents capacity r) ++ drop n dest)
  unfolding linearize
  linearize_lem r dest v =
      let n = min (length dest) r.size in
      let front : 0 + n ≡ n = omega arith in
      ap (λ xs. (n, xs))
        (copy_out_lem r n 0 dest v (omega arith) (omega arith)
          ∙ ap₂ ◌++◌ (sym (take-bytes_at n r.size r.storage r.head 0 (omega arith)))
              (ap (λ k. drop k dest) front))

  total-push_byte :
      (r : RingBuffer) (b : ℕ) → (push_byte capacity r b).total_written ≡ add_size r.total_written 1
  unfolding push_byte
  total-push_byte r b = ground arith

  total-push_all :
      (bs : List ℕ) (r : RingBuffer)
      → r.total_written + length bs < 2 ^ 64
      → (push_all capacity r bs).total_written ≡ r.total_written + length bs
  unfolding push_all
  total-push_all [] r h = omega arith
  total-push_all (b ∷ bs) r h = omega (
    arith,
    total-push_byte r b,
    total-push_all bs (push_byte capacity r b) (omega (arith, total-push_byte r b)),
  )

  -- The ring after a `clear` and one `write`.
  abbrev pub captured : RingBuffer → List ℕ → RingBuffer
  captured r bs = (write capacity (clear r) bs).0

  contents-captured :
      (r : RingBuffer) (bs : List ℕ)
      → IsValid capacity r
      → contents capacity (captured r bs) ≡ last capacity bs
  unfolding write clear
  contents-captured r bs v = push_all-contents capacity bs (clear r) (clear-IsValid capacity r v)

  length-contents :
      (r : RingBuffer) (bs : List ℕ)
      → IsValid capacity r
      → (captured r bs).size ≡ length (last capacity bs)
  length-contents r bs v =
      sym (
        length-bytes_at capacity (captured r bs).storage (captured r bs).head 0
          (captured r bs).size)
      ∙ ap length (contents-captured r bs v)

  captured-IsValid :
      (r : RingBuffer) (bs : List ℕ) → IsValid capacity r → IsValid capacity (captured r bs)
  unfolding write
  captured-IsValid r bs v = push_all-IsValid capacity bs (clear r) (clear-IsValid capacity r v)

  -- After `clear` of a valid ring and `write` of any bytes, `linearize` into a destination that can
  -- hold the capacity copies exactly the last `capacity` bytes written, in their order, and leaves
  -- the rest of the destination alone.
  pub write-linearize :
      (r : RingBuffer) (bs dest : List ℕ)
      → IsValid capacity r
      → capacity ≤ length dest
      → linearize capacity (captured r bs) dest
        ≡ (length (last capacity bs), last capacity bs ++ drop (length (last capacity bs)) dest)
  write-linearize r bs dest v room =
      linearize_lem (captured r bs) dest valid
      ∙ ap (λ n. (n, take n (contents capacity (captured r bs)) ++ drop n dest)) all
      ∙ ap (λ xs. (length kept, xs ++ drop (length kept) dest))
          (ap (take (length kept)) (contents-captured r bs v)
            ∙ take-all (length kept) kept (omega arith))
    where
      kept : List ℕ
      kept = last capacity bs

      valid : IsValid capacity (captured r bs)
      valid = captured-IsValid r bs v

      all : min (length dest) (captured r bs).size ≡ length kept
      all = omega (arith, length-contents r bs v, valid.size_in)

  pub total-captured :
      (r : RingBuffer) (bs : List ℕ)
      → length bs < 2 ^ 64
      → (captured r bs).total_written ≡ length bs
  unfolding write clear
  total-captured r bs small =
      let none_yet : 0 + length bs ≡ length bs = omega arith in
      total-push_all bs (record r { head = 0; tail = 0; size = 0; total_written = 0 }) (omega arith)
      ∙ none_yet

  -- After `clear` of a valid ring and `write` of fewer than 2 ^ 64 bytes, `dropped_bytes` is the
  -- number of those bytes that the ring no longer holds, and `is_truncated` says whether there is
  -- one.
  pub dropped_bytes_lem :
      (r : RingBuffer) (bs : List ℕ)
      → length bs < 2 ^ 64
      → IsValid capacity r
      → (dropped_bytes capacity (captured r bs) + length (contents capacity (captured r bs))
          ≡ length bs)
        × (is_truncated capacity (captured r bs) ≡ ltb 0 (dropped_bytes capacity (captured r bs)))
  unfolding dropped_bytes is_truncated
  dropped_bytes_lem r bs small v = ground (
    arith,
    ap length (contents-captured r bs v),
    length-drop (length bs - capacity) bs,
    total-captured r bs small,
  )
