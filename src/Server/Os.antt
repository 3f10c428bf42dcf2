-- ===== src/Server/Os.antt =====
-- The system calls of the server's event handling, and `write_all`. What the kernel answers to the
-- calls of write(2) is a list, used up from the front; what the server asks of it is a trace.
use axiom_vm.Prelude.{
  ℕ, zero, suc, ◌≤◌, ◌<◌, ◌≡◌, refl, ap, ◌∙◌, Bool, true, false, List, [], ◌∷◌, ◌++◌, arith, length,
  take, drop, append_assoc, take-append-drop, length-drop, All, inl, inr, ◌⊎◌,
}

-- One answer to write(2): bytes taken, EINTR, EAGAIN with the result of the poll(2) that
-- follows (whether the descriptor is writable), or another error.
pub data WriteAnswer : Type 0 where
  wrote : ℕ → WriteAnswer
  interrupted : WriteAnswer
  would_block : Bool → WriteAnswer
  failed : WriteAnswer

pub data Event : Type 0 where
  -- bytes that the kernel took on a descriptor
  sent : ℕ → List ℕ → Event
  closed : ℕ → Event
  -- epoll_ctl ADD and DEL
  added : ℕ → Event
  removed : ℕ → Event
  -- the loops of waitid(2) and waitpid(2) in `reap_children`
  reaped : Event

-- `write_all`, from the bytes that are left: whether all were written, the bytes that the kernel
-- took, and the answers that are left. Where no answer is left the call has failed.
unfoldable pub write_loop : List ℕ → List WriteAnswer → Bool × List ℕ × List WriteAnswer
write_loop [] answers = (true, [], answers)
write_loop (b ∷ bs) [] = (false, [], [])
write_loop (b ∷ bs) (wrote zero ∷ answers) = (false, [], answers)
write_loop (b ∷ bs) (wrote (suc n) ∷ answers) =
    let (done, out, left) = write_loop (drop n bs) answers in (done, b ∷ (take n bs ++ out), left)
write_loop (b ∷ bs) (interrupted ∷ answers) = write_loop (b ∷ bs) answers
write_loop (b ∷ bs) (would_block true ∷ answers) = write_loop (b ∷ bs) answers
write_loop (b ∷ bs) (would_block false ∷ answers) = (false, [], answers)
write_loop (b ∷ bs) (failed ∷ answers) = (false, [], answers)

-- The kernel as the server meets it.
pub record Os : Type 0 where
  pub answers : List WriteAnswer
  pub trace : List Event

unfoldable pub record_event : Event → Os → Os
record_event e os = record os { trace = os.trace ++ (e ∷ []) }

unfoldable pub write_all : ℕ → List ℕ → Os → Bool × Os
unfolding write_loop record_event
write_all fd bytes os =
    let (done, out, left) = write_loop bytes os.answers in
    (done, record_event (sent fd out) (record os { answers = left }))

-- The call has succeeded with nothing left, or failed with something left.
abbrev pub Outcome : Bool → List ℕ → Type 0
Outcome done rest = ((done ≡ true) × (rest ≡ [])) ⊎ ((done ≡ false) × (0 < length rest))

unwritten : (b : ℕ) (bs : List ℕ) → (rest : List ℕ) × ([] ++ rest ≡ b ∷ bs) × Outcome false rest
unwritten b bs = (b ∷ bs, refl, inr (refl, omega arith))

-- Whatever the kernel answers, `write_all` hands out the bytes in order from the front, none twice:
-- all of them exactly if it succeeds, and a proper part exactly if it fails.
pub write_loop-prefix :
    (answers : List WriteAnswer) (bytes : List ℕ)
    → let (done, out, _) = write_loop bytes answers in
      (rest : List ℕ) × (out ++ rest ≡ bytes) × Outcome done rest
unfolding write_loop
write_loop-prefix answers [] = ([], refl, inl (refl, refl))
write_loop-prefix [] (b ∷ bs) = unwritten b bs
write_loop-prefix (wrote zero ∷ answers) (b ∷ bs) = unwritten b bs
write_loop-prefix (wrote (suc n) ∷ answers) (b ∷ bs) =
    let (rest, whole, outcome) = write_loop-prefix answers (drop n bs) in
    (
      rest,
      ap (◌∷◌ b) (
          append_assoc (take n bs) (write_loop (drop n bs) answers).1 rest
          ∙ ap (◌++◌ (take n bs)) whole
          ∙ take-append-drop n bs),
      outcome,
    )
write_loop-prefix (interrupted ∷ answers) (b ∷ bs) = write_loop-prefix answers (b ∷ bs)
write_loop-prefix (would_block true ∷ answers) (b ∷ bs) = write_loop-prefix answers (b ∷ bs)
write_loop-prefix (would_block false ∷ answers) (b ∷ bs) = unwritten b bs
write_loop-prefix (failed ∷ answers) (b ∷ bs) = unwritten b bs

-- An answer after which the loop goes on.
abbrev pub IsProgress : WriteAnswer → Type 0
IsProgress (wrote n) = 0 < n
IsProgress interrupted = Unit
IsProgress (would_block true) = Unit
IsProgress (would_block false) = ⊥
IsProgress failed = ⊥

-- The number of answers that take a byte at least.
abbrev pub writes : List WriteAnswer → ℕ
writes [] = 0
writes (wrote n ∷ answers) = suc (writes answers)
writes (_ ∷ answers) = writes answers

-- If every answer of the kernel lets `write_all` go on, and at least as many of them take bytes as
-- there are bytes, the whole buffer is written.
pub write_loop-total :
    (answers : List WriteAnswer) (bytes : List ℕ)
    → All IsProgress answers
    → length bytes ≤ writes answers
    → let (done, out, _) = write_loop bytes answers in (done ≡ true) × (out ≡ bytes)
unfolding write_loop
write_loop-total answers [] h le = (refl, refl)
write_loop-total [] (b ∷ bs) h le = absurd (omega arith)
write_loop-total (wrote zero ∷ answers) (b ∷ bs) h le = absurd (omega arith)
write_loop-total (wrote (suc n) ∷ answers) (b ∷ bs) h le =
    let (done, whole) =
      write_loop-total answers (drop n bs) h.1 (omega (arith, length-drop n bs)) in
    (done, ap (◌∷◌ b) (ap (◌++◌ (take n bs)) whole ∙ take-append-drop n bs))
write_loop-total (interrupted ∷ answers) (b ∷ bs) h le = write_loop-total answers (b ∷ bs) h.1 le
write_loop-total (would_block true ∷ answers) (b ∷ bs) h le =
    write_loop-total answers (b ∷ bs) h.1 le
write_loop-total (would_block false ∷ answers) (b ∷ bs) h le = absurd h.0
write_loop-total (failed ∷ answers) (b ∷ bs) h le = absurd h.0
