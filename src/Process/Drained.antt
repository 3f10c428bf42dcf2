-- ===== src/Process/Drained.antt =====
-- The drains of include/axiom/process.hpp end where the kernel's answers do.
use axiom_vm.Prelude.{
  ℕ, ◌≡◌, Bool, true, false, Option, none, some, List, [], ◌∷◌, All, if◌then◌else◌, ◌==◌,
  Bool-cases, inl, inr, subst,
}
use axiom_vm.Process.{
  ChildStatus, unwatched, Event, pipe_event, child_event, other_event, Round, Monitor, note,
  drain_pipe, finish_child, kill_child, time_out, close_pipe, drain_if, on_event, on_events,
  before_wait, after_wait, remaining_of, reap_by_pid, last_drain, round,
}

-- Answers of read(2) that come to one without bytes: the end of the file, or nothing to read yet.
pub data IsDry : List (List ℕ) → Type 0 where
  now : {reads : List (List ℕ)} → IsDry ([] ∷ reads)
  after : {bytes : List ℕ} {reads : List (List ℕ)} → IsDry reads → IsDry (bytes ∷ reads)

abbrev pub IsDryEvent : Event → Type 0
IsDryEvent (pipe_event readable hung_up reads reads') = IsDry reads × IsDry reads'
IsDryEvent _ = Unit {0}

abbrev AreDry : Option (List Event) → Type 0
AreDry none = Unit {0}
AreDry (some events) = All IsDryEvent events

-- Every drain of a round comes to an answer without bytes.
abbrev pub IsDryRound : Round → Type 0
IsDryRound r = AreDry r.wait × IsDry r.last_reads

abbrev pub IsFree : Monitor → Type 0
IsFree m = m.draining ≡ false

drain_pipe-IsFree :
    (reads : List (List ℕ)) (m : Monitor) → IsDry reads → IsFree m → IsFree (drain_pipe reads m)
unfolding drain_pipe
drain_pipe-IsFree [] m d f = elim d [ ]
drain_pipe-IsFree ([] ∷ reads) m d f = f
drain_pipe-IsFree ((b ∷ bs) ∷ reads) m (after d) f = drain_pipe-IsFree reads _ d f

if-IsFree : (b : Bool) (m m' : Monitor) → IsFree m → IsFree m' → IsFree (if b then m else m')
if-IsFree true m m' f f' = f
if-IsFree false m m' f f' = f'

module _ (child_pid : ℕ) (pidfd : Option ℕ) (pipe_fd : ℕ) (timeout_ms : ℕ) where
  time_out-IsFree :
      (m : Monitor) → IsFree m → IsFree (time_out child_pid pidfd pipe_fd timeout_ms m)
  unfolding time_out kill_child
  time_out-IsFree m f = by_fd pidfd
    where
      by_fd : (o : Option ℕ) → IsFree (kill_child child_pid o (record m { timed_out = true }))
      by_fd none = f
      by_fd (some fd) = f

  close_pipe-IsFree :
      (reads : List (List ℕ)) (m : Monitor)
      → IsDry reads
      → IsFree m
      → IsFree (close_pipe child_pid pidfd pipe_fd timeout_ms reads m)
  unfolding close_pipe
  close_pipe-IsFree reads m d f = drain_pipe-IsFree reads m d f

  drain_if-IsFree :
      (b : Bool) (reads : List (List ℕ)) (m : Monitor)
      → IsDry reads
      → IsFree m
      → IsFree (drain_if child_pid pidfd pipe_fd timeout_ms b reads m)
  unfolding drain_if
  drain_if-IsFree true reads m d f = drain_pipe-IsFree reads m d f
  drain_if-IsFree false reads m d f = f

  reap-IsFree :
      (o : Option ℕ) (status : ChildStatus) (m : Monitor)
      → IsFree m
      → IsFree (elim o [ none ↦ m | some fd ↦ note (unwatched fd) (finish_child status m) ])
  unfolding finish_child
  reap-IsFree none status m f = f
  reap-IsFree (some fd) status m f = f

  on_event-IsFree :
      (e : Event) (m : Monitor)
      → IsDryEvent e
      → IsFree m
      → IsFree (on_event child_pid pidfd pipe_fd timeout_ms e m)
  unfolding on_event
  on_event-IsFree (pipe_event readable hung_up reads reads') m (d, d') f =
      let f' = drain_if-IsFree readable reads m d f in
      if-IsFree hung_up _ _ (close_pipe-IsFree reads' _ d' f') f'
  on_event-IsFree (child_event none) m d f = f
  on_event-IsFree (child_event (some status)) m d f = reap-IsFree pidfd status m f
  on_event-IsFree other_event m d f = f

  on_events-IsFree :
      (es : List Event) (m : Monitor)
      → All IsDryEvent es
      → IsFree m
      → IsFree (on_events child_pid pidfd pipe_fd timeout_ms es m)
  unfolding on_events
  on_events-IsFree [] m ds f = f
  on_events-IsFree (e ∷ es) m (d, ds) f = on_events-IsFree es _ ds (on_event-IsFree e m d f)

  before_wait-IsFree :
      (elapsed_ms : ℕ) (m : Monitor)
      → IsFree m
      → IsFree (before_wait child_pid pidfd pipe_fd timeout_ms elapsed_ms m).1
  unfolding before_wait
  before_wait-IsFree elapsed_ms m f =
      elim (Bool-cases (remaining_of child_pid pidfd pipe_fd timeout_ms elapsed_ms == 0)) [
        | inl e ↦ rw e (time_out-IsFree m f)
        | inr e ↦ rw e f
      ]

  reap_by_pid-IsFree :
      (o : Option ChildStatus) (m : Monitor)
      → IsFree m
      → IsFree (reap_by_pid child_pid pidfd pipe_fd timeout_ms o m)
  unfolding reap_by_pid finish_child
  reap_by_pid-IsFree none m f = f
  reap_by_pid-IsFree (some status) m f = by_fd pidfd
    where
      by_fd :
          (o : Option ℕ)
          → IsFree
              (elim o [ none ↦ if m.child_done then m else finish_child status m | some fd ↦ m ])
      by_fd none = if-IsFree m.child_done m (finish_child status m) f f
      by_fd (some fd) = f

  pub round-IsFree :
      (r : Round) (events : List Event) (m : Monitor)
      → r.wait ≡ some events
      → IsDryRound r
      → IsFree m
      → IsFree (round child_pid pidfd pipe_fd timeout_ms r events m)
  unfolding round after_wait last_drain
  round-IsFree r events m w (dry, dry') f =
      let ds : All IsDryEvent events = subst AreDry w dry in
      let f1 = before_wait-IsFree r.elapsed_ms m f in
      let m1 = (before_wait child_pid pidfd pipe_fd timeout_ms r.elapsed_ms m).1 in
      let f2 = if-IsFree _ _ m1 (time_out-IsFree m1 f1) f1 in
      let f3 = reap_by_pid-IsFree r.reaped_status _ (on_events-IsFree events _ ds f2) in
      if-IsFree _ _ _ (close_pipe-IsFree r.last_reads _ dry' f3) f3
