-- ===== src/Process/Trace.antt =====
-- What the trace of include/axiom/process.hpp's monitor tells: the bytes that were read, the kills, the
-- status of the child, and how often a descriptor was opened and closed.
use axiom_vm.Prelude.{
  ℕ, ◌+◌, ◌≡◌, refl, ap, sym, ◌∙◌, Bool, true, false, ◌||◌, Option, none, some, List, [], ◌∷◌, ◌++◌,
  arith, append_assoc, append-nil, if◌then◌else◌, ◌==◌,
}
use axiom_vm.RingBuffer.{RingBuffer, push_all, push_byte}
use axiom_vm.Process.{
  ChildStatus, Call, scanned, opened, closed, took, killed_by_fd, killed_pid, reaped, no_exit_code,
  exit_code_of,
}
use axiom_vm.Diff.Descriptors.{dir_opens, dir_closes}
use axiom_vm.Process.Run.{Trace}

-- The bytes that a trace read from the pipe, in order.
abbrev pub bytes_of : Call → List ℕ
bytes_of (took bytes) = bytes
bytes_of _ = []

abbrev pub taken : Trace → List ℕ
taken [] = []
taken (c ∷ cs) = bytes_of c ++ taken cs

abbrev pub is_kill : Call → Bool
is_kill (killed_by_fd fd) = true
is_kill (killed_pid pid) = true
is_kill _ = false

-- The child was killed.
abbrev pub was_killed : Trace → Bool
was_killed [] = false
was_killed (c ∷ cs) = is_kill c || was_killed cs

abbrev pub status_of : Call → Option ChildStatus → Option ChildStatus
status_of (reaped status) last = some status
status_of _ last = last

-- The last status of the child in a trace, behind one already known.
abbrev pub status_after : Option ChildStatus → Trace → Option ChildStatus
status_after last [] = last
status_after last (c ∷ cs) = status_after (status_of c last) cs

taken-append : (xs ys : Trace) → taken (xs ++ ys) ≡ taken xs ++ taken ys
taken-append [] ys = refl
taken-append (x ∷ xs) ys =
    ap (λ bs. bytes_of x ++ bs) (taken-append xs ys)
    ∙ sym (append_assoc (bytes_of x) (taken xs) (taken ys))

or_assoc : (a b c : Bool) → (a || (b || c)) ≡ ((a || b) || c)
or_assoc true b c = refl
or_assoc false b c = refl

was_killed-append : (xs ys : Trace) → was_killed (xs ++ ys) ≡ (was_killed xs || was_killed ys)
was_killed-append [] ys = refl
was_killed-append (x ∷ xs) ys =
    ap (λ b. is_kill x || b) (was_killed-append xs ys)
    ∙ or_assoc (is_kill x) (was_killed xs) (was_killed ys)

pub status_after-append :
    (last : Option ChildStatus) (xs ys : Trace)
    → status_after last (xs ++ ys) ≡ status_after (status_after last xs) ys
status_after-append last [] ys = refl
status_after-append last (x ∷ xs) ys = status_after-append (status_of x last) xs ys

pub push_all-append :
    (capacity : ℕ) (bs cs : List ℕ) (r : RingBuffer)
    → push_all capacity r (bs ++ cs) ≡ push_all capacity (push_all capacity r bs) cs
unfolding push_all
push_all-append capacity [] cs r = refl
push_all-append capacity (b ∷ bs) cs r = push_all-append capacity bs cs (push_byte capacity r b)

-- The exit code that stands for what is known of the child.
abbrev pub code_of : Option ChildStatus → ℕ
code_of none = no_exit_code
code_of (some status) = exit_code_of status

-- How often a descriptor is opened, and closed.
abbrev pub opens_of : ℕ → Call → ℕ
opens_of d (opened fd) = if d == fd then 1 else 0
opens_of d (scanned cs) = dir_opens d cs
opens_of d _ = 0

abbrev pub closes_of : ℕ → Call → ℕ
closes_of d (closed fd) = if d == fd then 1 else 0
closes_of d (scanned cs) = dir_closes d cs
closes_of d _ = 0

abbrev pub opens : ℕ → Trace → ℕ
opens d [] = 0
opens d (c ∷ cs) = opens_of d c + opens d cs

abbrev pub closes : ℕ → Trace → ℕ
closes d [] = 0
closes d (c ∷ cs) = closes_of d c + closes d cs

pub opens_last :
    (d : ℕ) (cs : Trace) (c : Call) → opens d (cs ++ (c ∷ [])) ≡ opens d cs + opens_of d c
opens_last d [] c = omega arith
opens_last d (x ∷ cs) c = omega (arith, opens_last d cs c)

pub closes_last :
    (d : ℕ) (cs : Trace) (c : Call) → closes d (cs ++ (c ∷ [])) ≡ closes d cs + closes_of d c
closes_last d [] c = omega arith
closes_last d (x ∷ cs) c = omega (arith, closes_last d cs c)

pub opens-append : (d : ℕ) (xs ys : Trace) → opens d (xs ++ ys) ≡ opens d xs + opens d ys
opens-append d [] ys = omega arith
opens-append d (x ∷ xs) ys = omega (arith, opens-append d xs ys)

pub closes-append : (d : ℕ) (xs ys : Trace) → closes d (xs ++ ys) ≡ closes d xs + closes d ys
closes-append d [] ys = omega arith
closes-append d (x ∷ xs) ys = omega (arith, closes-append d xs ys)

pub or_false : (b : Bool) → (b || false) ≡ b
or_false true = refl
or_false false = refl

pub taken_last : (cs : Trace) (c : Call) → taken (cs ++ (c ∷ [])) ≡ taken cs ++ bytes_of c
taken_last cs c = taken-append cs (c ∷ []) ∙ ap (λ bs. taken cs ++ bs) (append-nil (bytes_of c))

pub was_killed_last :
    (cs : Trace) (c : Call) → was_killed (cs ++ (c ∷ [])) ≡ (was_killed cs || is_kill c)
was_killed_last cs c =
    was_killed-append cs (c ∷ []) ∙ ap (λ b. was_killed cs || b) (or_false (is_kill c))
