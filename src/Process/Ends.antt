-- ===== src/Process/Ends.antt =====
-- A run of include/axiom/process.hpp ends when the child's status arrives.
use axiom_vm.Prelude.{
  All, ap, ◌∙◌, ℕ, ◌≡◌, refl, sym, subst, Bool, true, false, ◌&&◌, not, Option, none, some, List,
  [], ◌∷◌, ◌++◌, arith, if◌then◌else◌, Bool-cases, inl, inr, Option-cases,
}
use axiom_vm.Common.{Result}
use axiom_vm.RingBuffer.{RingBuffer, clear}
use axiom_vm.Server.Services.{ExecOptions, ExecResult}
use axiom_vm.Process.{
  no_exit_code, opened, closed, ChildStatus, unwatched, Event, pipe_event, child_event, other_event,
  Round, Monitor, note, drain_pipe, finish_child, close_pipe, drain_if, on_event, on_events,
  before_wait, after_wait, reap_by_pid, last_drain, round, monitor_loop,
}
use axiom_vm.Process.Drained.{IsDryRound, IsFree, round-IsFree}
use axiom_vm.Process.Run.{Trace, Answers, is_some, monitor_child, run, open_pidfd, first_calls}

-- The round in which the kernel reports that the child has ended: to a waitid(2) on its descriptor,
-- or to the waitpid(2) of a runner without one.
pub data Reports (r : Round) : Option ℕ → Type 0 where
  by_descriptor :
      (fd : ℕ) (before behind : List Event) (status : ChildStatus)
      → r.wait ≡ some (before ++ (child_event (some status) ∷ behind))
      → Reports r (some fd)
  by_number :
      (events : List Event) (status : ChildStatus)
      → r.wait ≡ some events
      → r.reaped_status ≡ some status
      → Reports r none

IsDone : Monitor → Type 0
IsDone m = m.child_done ≡ true

drain_pipe-IsDone : (reads : List (List ℕ)) (m : Monitor) → IsDone m → IsDone (drain_pipe reads m)
unfolding drain_pipe IsDone
drain_pipe-IsDone [] m d = d
drain_pipe-IsDone ([] ∷ reads) m d = d
drain_pipe-IsDone ((b ∷ bs) ∷ reads) m d = drain_pipe-IsDone reads _ d

if-IsDone : (b : Bool) (m m' : Monitor) → IsDone m → IsDone m' → IsDone (if b then m else m')
if-IsDone true m m' d d' = d
if-IsDone false m m' d d' = d'

module _ (child_pid : ℕ) (pidfd : Option ℕ) (pipe_fd : ℕ) (timeout_ms : ℕ) where
  close_pipe-IsDone :
      (reads : List (List ℕ)) (m : Monitor)
      → IsDone m
      → IsDone (close_pipe child_pid pidfd pipe_fd timeout_ms reads m)
  unfolding close_pipe IsDone
  close_pipe-IsDone reads m d = drain_pipe-IsDone reads m d

  drain_if-IsDone :
      (b : Bool) (reads : List (List ℕ)) (m : Monitor)
      → IsDone m
      → IsDone (drain_if child_pid pidfd pipe_fd timeout_ms b reads m)
  unfolding drain_if
  drain_if-IsDone true reads m d = drain_pipe-IsDone reads m d
  drain_if-IsDone false reads m d = d

  reap-IsDone :
      (o : Option ℕ) (status : ChildStatus) (m : Monitor)
      → IsDone m
      → IsDone (elim o [ none ↦ m | some fd ↦ note (unwatched fd) (finish_child status m) ])
  unfolding finish_child IsDone
  reap-IsDone none status m d = d
  reap-IsDone (some fd) status m d = refl

  on_event-IsDone :
      (e : Event) (m : Monitor)
      → IsDone m
      → IsDone (on_event child_pid pidfd pipe_fd timeout_ms e m)
  unfolding on_event
  on_event-IsDone (pipe_event readable hung_up reads reads') m d =
      let d' = drain_if-IsDone readable reads m d in
      if-IsDone hung_up _ _ (close_pipe-IsDone reads' _ d') d'
  on_event-IsDone (child_event none) m d = d
  on_event-IsDone (child_event (some status)) m d = reap-IsDone pidfd status m d
  on_event-IsDone other_event m d = d

  on_events-IsDone :
      (es : List Event) (m : Monitor)
      → IsDone m
      → IsDone (on_events child_pid pidfd pipe_fd timeout_ms es m)
  unfolding on_events
  on_events-IsDone [] m d = d
  on_events-IsDone (e ∷ es) m d = on_events-IsDone es _ (on_event-IsDone e m d)

  -- The drain at the end of a round leaves nothing to wait for.
  last_drain-ends :
      (reads : List (List ℕ)) (m : Monitor)
      → IsDone m
      → let m' = last_drain child_pid pidfd pipe_fd timeout_ms reads m in
        (m'.child_done && m'.pipe_closed) ≡ true
  unfolding last_drain IsDone close_pipe
  last_drain-ends reads m d = elim (Bool-cases m.pipe_closed) [
    | inl e ↦ ground arith
    | inr e ↦ ground (arith, drain_pipe-IsDone reads m d)
  ]

  on_events-reports :
      (fd : ℕ) (before behind : List Event) (status : ChildStatus) (m : Monitor)
      → pidfd ≡ some fd
      → IsDone (
          on_events child_pid pidfd pipe_fd timeout_ms
            (before ++ (child_event (some status) ∷ behind))
            m)
  unfolding on_events on_event IsDone finish_child
  on_events-reports fd [] behind status m e =
      on_events-IsDone behind
        (on_event child_pid pidfd pipe_fd timeout_ms (child_event (some status)) m)
        (rw (on_event, e))
  on_events-reports fd (b ∷ before) behind status m e =
      on_events-reports fd before behind status (on_event child_pid pidfd pipe_fd timeout_ms b m) e

  reap_by_pid-IsDone :
      (o : Option ChildStatus) (m : Monitor)
      → IsDone m
      → IsDone (reap_by_pid child_pid pidfd pipe_fd timeout_ms o m)
  unfolding reap_by_pid IsDone
  reap_by_pid-IsDone none m d = d
  reap_by_pid-IsDone (some status) m d = elim (Option-cases pidfd) [
    | inl e ↦ rw (reap_by_pid, e, d)
    | inr (fd, e) ↦ rw (reap_by_pid, e) d
  ]

  reap_by_pid-reports :
      (status : ChildStatus) (m : Monitor)
      → pidfd ≡ none
      → IsDone (reap_by_pid child_pid pidfd pipe_fd timeout_ms (some status) m)
  unfolding reap_by_pid IsDone finish_child
  reap_by_pid-reports status m e = ground arith

  round-ends :
      (r : Round) (events : List Event) (m : Monitor)
      → r.wait ≡ some events
      → Reports r pidfd
      → let m' = round child_pid pidfd pipe_fd timeout_ms r events m in
        (m'.child_done && m'.pipe_closed) ≡ true
  unfolding round
  round-ends r events m w reports = last_drain-ends r.last_reads _ (arrives pidfd refl reports)
    where
      waited : Monitor
      waited =
          let (remaining_ms, m') = before_wait child_pid pidfd pipe_fd timeout_ms r.elapsed_ms m in
          after_wait child_pid pidfd pipe_fd timeout_ms remaining_ms events m'

      arrives :
          (o : Option ℕ)
          → pidfd ≡ o
          → Reports r o
          → IsDone (
              reap_by_pid child_pid pidfd pipe_fd timeout_ms r.reaped_status
                (on_events child_pid pidfd pipe_fd timeout_ms events waited))
      arrives _ e (by_descriptor fd before behind status w') =
          let same : before ++ (child_event (some status) ∷ behind) ≡ events = cc (w, w') in
          reap_by_pid-IsDone r.reaped_status _ (
            subst (λ es. IsDone (on_events child_pid pidfd pipe_fd timeout_ms es waited)) same
              (on_events-reports fd before behind status waited e))
      arrives _ e (by_number events' status w' reaped') =
          subst
            (λ o. IsDone (
              reap_by_pid child_pid pidfd pipe_fd timeout_ms o
                (on_events child_pid pidfd pipe_fd timeout_ms events waited)))
            (sym reaped')
            (reap_by_pid-reports status (on_events child_pid pidfd pipe_fd timeout_ms events waited)
              e)

  passed :
      (b c : Bool) (m : Monitor) (rest : Option Monitor)
      → b ≡ false
      → c ≡ false
      → (if b then none else if c then some m else rest) ≡ rest
  passed true c m rest h g = cc (h)
  passed false true m rest h g = cc (g)
  passed false false m rest h g = refl

  -- A round of the loop, by the answer of the wait.
  monitor_loop-round :
      (r : Round) (rounds : List Round) (m : Monitor) (o : Option (List Event))
      → IsFree m
      → (m.child_done && m.pipe_closed) ≡ false
      → r.wait ≡ o
      → monitor_loop child_pid pidfd pipe_fd timeout_ms (r ∷ rounds) m ≡ (elim o [
        | none ↦ some (before_wait child_pid pidfd pipe_fd timeout_ms r.elapsed_ms m).1
        | some events ↦
            monitor_loop child_pid pidfd pipe_fd timeout_ms rounds
              (round child_pid pidfd pipe_fd timeout_ms r events m)
      ])
  unfolding monitor_loop
  monitor_loop-round r rounds m o f e w =
      let rest : Option (List Event) → Option Monitor = λ o'. elim o' [
        | none ↦ some (before_wait child_pid pidfd pipe_fd timeout_ms r.elapsed_ms m).1
        | some events ↦
            monitor_loop child_pid pidfd pipe_fd timeout_ms rounds
              (round child_pid pidfd pipe_fd timeout_ms r events m)
      ] in
      passed m.draining (m.child_done && m.pipe_closed) m (rest r.wait) f e ∙ ap rest w

  monitor_loop-ended :
      (rounds : List Round) (m : Monitor)
      → IsFree m
      → (m.child_done && m.pipe_closed) ≡ true
      → monitor_loop child_pid pidfd pipe_fd timeout_ms rounds m ≡ some m
  unfolding monitor_loop
  monitor_loop-ended [] m f e = rw (monitor_loop, f, e)
  monitor_loop-ended (r ∷ rounds) m f e = rw (monitor_loop, f, e)

  monitor_loop-returns :
      (before behind : List Round) (r : Round) (m : Monitor)
      → All IsDryRound before
      → IsDryRound r
      → Reports r pidfd
      → IsFree m
      → (m' : Monitor) × (monitor_loop child_pid pidfd pipe_fd timeout_ms (before ++ (r ∷ behind)) m
          ≡ some m')
  unfolding monitor_loop
  monitor_loop-returns [] behind r m dries dry reports f =
      elim (Bool-cases (m.child_done && m.pipe_closed)) [
        | inl e ↦ (m, rw (monitor_loop, f, e))
        | inr e ↦ elim (Option-cases r.wait) [
          | inl w ↦ (
            (before_wait child_pid pidfd pipe_fd timeout_ms r.elapsed_ms m).1,
            monitor_loop-round r behind m none f e w,
          )
          | inr (events, w) ↦ (
            round child_pid pidfd pipe_fd timeout_ms r events m,
            monitor_loop-round r behind m (some events) f e w
                ∙ (monitor_loop-ended behind _
                    (round-IsFree child_pid pidfd pipe_fd timeout_ms r events m w dry f)
                    (round-ends r events m w reports)),
          )
        ]
      ]
  monitor_loop-returns (b ∷ before) behind r m (dry, dries) dry' reports f =
      elim (Bool-cases (m.child_done && m.pipe_closed)) [
        | inl e ↦ (m, rw (monitor_loop, f, e))
        | inr e ↦ elim (Option-cases b.wait) [
          | inl w ↦ (
            (before_wait child_pid pidfd pipe_fd timeout_ms b.elapsed_ms m).1,
            monitor_loop-round b (before ++ (r ∷ behind)) m none f e w,
          )
          | inr (events, w) ↦
              let (m', h) =
                monitor_loop-returns before behind r
                  (round child_pid pidfd pipe_fd timeout_ms b events m) dries dry' reports
                  (round-IsFree child_pid pidfd pipe_fd timeout_ms b events m w dry f) in
              (m', monitor_loop-round b (before ++ (r ∷ behind)) m (some events) f e w ∙ h)
        ]
      ]

module _ (a : Answers) (before behind : List Round) (r : Round)
    (rounds : a.rounds ≡ before ++ (r ∷ behind)) (reports : Reports r a.pidfd)
    (dries : All IsDryRound before) (dry : IsDryRound r) where
  monitor_child-returns :
      (child_pid pipe_fd timeout_ms : ℕ) (ring : RingBuffer) (calls : Trace)
      → (answer : Result Monitor × Trace) × (monitor_child a child_pid pipe_fd timeout_ms ring calls
          ≡ some answer)
  unfolding monitor_child
  monitor_child-returns child_pid pipe_fd timeout_ms ring calls = elim (Option-cases a.reactor) [
    | inl e ↦ rw (monitor_child, e) (_, refl)
    | inr (epoll_fd, e) ↦ elim (Bool-cases (is_some a.pidfd && not a.pidfd_added)) [
      | inl f ↦ rw (monitor_child, e, f) (_, refl)
      | inr f ↦ elim (Bool-cases (not a.pipe_added)) [
        | inl g ↦ rw (monitor_child, e, f, g) (_, refl)
        | inr g ↦
            let (m', h) =
              monitor_loop-returns child_pid a.pidfd pipe_fd timeout_ms before behind r
                (record {
                  ring = ring;
                  child_done = false;
                  pipe_closed = false;
                  timed_out = false;
                  exit_code = no_exit_code;
                  draining = false;
                  calls = calls ++ (opened epoll_fd ∷ []);
                })
                dries dry reports refl in
            rw (monitor_child, e, f, g, rounds, h) (_, refl)
      ]
    ]
  ]

  -- `run` returns, with a result or an error, once a round reports that the child has ended, whatever
  -- the rounds before it bring, and wherever an earlier step fails. The pipe may give any number of
  -- reads in each drain, of which one is without bytes in the end: nothing to read yet, or the end.
  pub run-returns :
      (options : ExecOptions) (dest : List ℕ) (diff_size : ℕ) (ring : RingBuffer)
      → (answer : Result ExecResult × Trace) × (run options a dest diff_size ring ≡ some answer)
  unfolding run
  run-returns options dest diff_size ring = elim (Option-cases a.pipe) [
    | inl e ↦ rw (run, e) (_, refl)
    | inr ((read_end, write_end), e) ↦ elim (Option-cases a.child) [
      | inl f ↦ rw (run, e, f) (_, refl)
      | inr (child_pid, f) ↦
          let calls' =
            open_pidfd a.pidfd (first_calls options a ++ (opened read_end ∷ opened write_end ∷ []))
            ++ (closed write_end ∷ []) in
          let (x, h) =
            monitor_child-returns child_pid read_end options.timeout_ms (clear ring) calls' in
          rw (run, e, f, h) (_, refl)
    ]
  ]
