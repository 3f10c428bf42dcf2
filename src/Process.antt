-- ===== src/Process.antt =====
-- include/axiom/process.hpp: the command runner's monitor loop. The kernel's answers are arguments:
-- a round of the loop for each time that the reactor's wait returns. What the runner asks of the
-- kernel is a trace.
pub mod Run
pub mod Trace
pub mod Traced
pub mod Monitored
pub mod Drained
pub mod Ends
pub mod Output
pub mod Descriptors
use axiom_vm.Prelude.{
  ℕ, zero, suc, ◌+◌, ◌-◌, ◌^◌, Bool, true, false, not, ◌&&◌, ◌||◌, Option, none, some, List, [],
  ◌∷◌, ◌++◌, if◌then◌else◌, ltb, leb, ◌==◌,
}
use axiom_vm.Common.{Result, ok, err, epoll_error}
use axiom_vm.Diff.Scan.{ScanCall}
use axiom_vm.RingBuffer.{RingBuffer, write, push_all, push_byte}

-- `RING_BUFFER_CAPACITY`
abbrev pub ring_buffer_capacity : ℕ
ring_buffer_capacity = 65536

-- How a child ended, as waitid(2) or waitpid(2) reports it.
pub data ChildStatus : Type 0 where
  exited : ℕ → ChildStatus
  signalled : ℕ → ChildStatus

-- What the runner asks of the kernel, and what it gets of it where a theorem speaks of that.
pub data Call : Type 0 where
  opened : ℕ → Call
  closed : ℕ → Call
  unwatched : ℕ → Call
  -- a read of the pipe that gave bytes
  took : List ℕ → Call
  -- SIGKILL through the descriptor, or to the process
  killed_by_fd : ℕ → Call
  killed_pid : ℕ → Call
  -- a wait for the child that gave its status
  reaped : ChildStatus → Call
  -- a snapshot of the directory
  scanned : List ScanCall → Call
  -- the last waitpid(2), whose answer is not read
  waited : Call

-- An event of a round, with the answers to the calls that it leads to.
pub data Event : Type 0 where
  -- on the pipe: readable, hung up or in error; the reads of the two drains
  pipe_event : Bool → Bool → List (List ℕ) → List (List ℕ) → Event
  -- on the descriptor of the child: the status, if waitid(2) gives the child's
  child_event : Option ChildStatus → Event
  other_event : Event

-- A round: the time since the start, the answer of the reactor's wait, the status if the child is
-- reaped by its number, and the reads of the last drain.
pub record Round : Type 0 where
  pub elapsed_ms : ℕ
  pub wait : Option (List Event)
  pub reaped_status : Option ChildStatus
  pub last_reads : List (List ℕ)

-- The ring buffer, the loop's variables and the parts of the result that it sets.
pub record Monitor : Type 0 where
  pub ring : RingBuffer
  pub child_done : Bool
  pub pipe_closed : Bool
  pub timed_out : Bool
  pub exit_code : ℕ
  -- a drain that the answers so far have not ended: it reads on, and nothing behind it happens yet
  pub draining : Bool
  pub calls : List Call

abbrev pub note : Call → Monitor → Monitor
note c m = record m { calls = m.calls ++ (c ∷ []) }

-- the int32_t that the result starts with, -1
abbrev pub no_exit_code : ℕ
no_exit_code = 2 ^ 32 - 1

unfoldable pub exit_code_of : ChildStatus → ℕ
exit_code_of (exited status) = status
exit_code_of (signalled status) = 128 + status

-- `drain_pipe` over the answers of read(2): only one without bytes ends it, and it reads on where
-- there is no more answer
unfoldable pub drain_pipe : List (List ℕ) → Monitor → Monitor
unfolding write
drain_pipe [] m = record m { draining = true }
drain_pipe ([] ∷ reads) m = m
drain_pipe ((b ∷ bs) ∷ reads) m =
    drain_pipe reads
      (note (took (b ∷ bs)) (record m { ring = (write ring_buffer_capacity m.ring (b ∷ bs)).0 }))

unfoldable pub kill_child : ℕ → Option ℕ → Monitor → Monitor
kill_child child_pid none m = note (killed_pid child_pid) m
kill_child child_pid (some pidfd) m = note (killed_by_fd pidfd) m

unfoldable pub finish_child : ChildStatus → Monitor → Monitor
unfolding exit_code_of
finish_child status m =
    note (reaped status) (record m { child_done = true; exit_code = exit_code_of status })

module _ (child_pid : ℕ) (pidfd : Option ℕ) (pipe_fd : ℕ) (timeout_ms : ℕ) where
  unfoldable pub time_out : Monitor → Monitor
  unfolding kill_child
  time_out m = kill_child child_pid pidfd (record m { timed_out = true })

  unfoldable pub close_pipe : List (List ℕ) → Monitor → Monitor
  unfolding drain_pipe
  close_pipe reads m = note (unwatched pipe_fd) (record (drain_pipe reads m) { pipe_closed = true })

  unfoldable pub drain_if : Bool → List (List ℕ) → Monitor → Monitor
  unfolding drain_pipe
  drain_if true reads m = drain_pipe reads m
  drain_if false reads m = m

  -- One event of a round. That the child's descriptor is watched at all is its being there.
  unfoldable pub on_event : Event → Monitor → Monitor
  unfolding drain_if close_pipe finish_child
  on_event (pipe_event readable hung_up reads reads') m =
      let m' = drain_if readable reads m in if hung_up then close_pipe reads' m' else m'
  on_event (child_event none) m = m
  on_event (child_event (some status)) m = elim pidfd [
    | none ↦ m
    | some fd ↦ note (unwatched fd) (finish_child status m)
  ]
  on_event other_event m = m

  unfoldable pub on_events : List Event → Monitor → Monitor
  unfolding on_event
  on_events [] m = m
  on_events (e ∷ es) m = on_events es (on_event e m)

  -- `remaining_ms`, where 0 stands for every value that is not positive: a timeout from 2 ^ 31 on
  -- is negative as an `int`.
  unfoldable pub remaining_of : ℕ → ℕ
  remaining_of elapsed_ms = if ltb timeout_ms (2 ^ 31) then timeout_ms - elapsed_ms else 0

  -- the head of a round: the timeout, and the milliseconds that the wait is given
  unfoldable pub before_wait : ℕ → Monitor → ℕ × Monitor
  unfolding time_out remaining_of
  before_wait elapsed_ms m =
      if remaining_of elapsed_ms == 0 then (500, time_out m) else (remaining_of elapsed_ms, m)

  unfoldable pub is_empty : List Event → Bool
  is_empty [] = true
  is_empty (e ∷ es) = false

  -- no event in the last ten milliseconds
  unfoldable pub after_wait : ℕ → List Event → Monitor → Monitor
  unfolding is_empty time_out
  after_wait remaining_ms events m =
      if is_empty events && leb remaining_ms 10 then time_out m else m

  -- without a descriptor for it the child is reaped by its number
  unfoldable pub reap_by_pid : Option ChildStatus → Monitor → Monitor
  unfolding finish_child
  reap_by_pid none m = m
  reap_by_pid (some status) m = elim pidfd [
    | none ↦ if m.child_done then m else finish_child status m
    | some fd ↦ m
  ]

  unfoldable pub last_drain : List (List ℕ) → Monitor → Monitor
  unfolding close_pipe
  last_drain reads m = if m.child_done && not m.pipe_closed then close_pipe reads m else m

  -- A round whose wait gives events.
  unfoldable pub round : Round → List Event → Monitor → Monitor
  unfolding before_wait after_wait on_events reap_by_pid last_drain
  round r events m =
      let (remaining_ms, m') = before_wait r.elapsed_ms m in
      last_drain r.last_reads
        (reap_by_pid r.reaped_status (on_events events (after_wait remaining_ms events m')))

  -- The loop over the rounds that come; `none` while it waits for one more, and from a drain on that
  -- does not end.
  unfoldable pub monitor_loop : List Round → Monitor → Option Monitor
  unfolding round before_wait
  monitor_loop [] m =
      if m.draining then none else if m.child_done && m.pipe_closed then some m else none
  monitor_loop (r ∷ rounds) m =
      let rest : Option Monitor = elim r.wait [
        | none ↦ some (before_wait r.elapsed_ms m).1
        | some events ↦ monitor_loop rounds (round r events m)
      ] in
      if m.draining then none else if m.child_done && m.pipe_closed then some m else rest
