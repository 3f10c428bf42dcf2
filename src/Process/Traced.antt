-- ===== src/Process/Traced.antt =====
-- The monitor of include/axiom/process.hpp keeps account of its trace: the ring of the bytes that
-- were read, the flag of the kills, the exit code of the status.
use axiom_vm.Prelude.{
  ℕ, ◌+◌, ◌≡◌, refl, ap, sym, ◌∙◌, subst, Bool, true, false, ◌||◌, ◌&&◌, Option, none, some, List,
  [], ◌∷◌, ◌++◌, arith, append-nil, if◌then◌else◌, ◌==◌, Bool-cases, inl, inr, Option-cases,
}
use axiom_vm.RingBuffer.{RingBuffer, push_all, write}
use axiom_vm.Process.{
  ring_buffer_capacity, ChildStatus, Call, unwatched, took, killed_by_fd, killed_pid, reaped, Event,
  pipe_event, child_event, other_event, Round, Monitor, note, drain_pipe, kill_child, finish_child,
  time_out, close_pipe, drain_if, on_event, on_events, before_wait, remaining_of, after_wait,
  reap_by_pid, last_drain, round, monitor_loop,
}
use axiom_vm.Process.Run.{Trace, is_some}
use axiom_vm.Process.Trace.{
  bytes_of, taken, is_kill, was_killed, status_of, status_after, status_after-append,
  push_all-append, code_of, opens_of, closes_of, opens, closes, opens_last, closes_last, or_false,
  taken_last, was_killed_last,
}

-- What the monitor starts from: the ring, and the calls so far.
pub record Start : Type 0 where
  pub ring : RingBuffer
  pub opened_before : ℕ → ℕ
  pub closed_before : ℕ → ℕ

-- The state of the monitor agrees with its trace. The loop itself opens and closes nothing.
pub record IsTraced (start : Start) (m : Monitor) : Type 0 where
  pub ring_of : m.ring ≡ push_all ring_buffer_capacity start.ring (taken m.calls)
  pub timed_out_of : m.timed_out ≡ was_killed m.calls
  pub child_done_of : m.child_done ≡ is_some (status_after none m.calls)
  pub exit_code_is : m.exit_code ≡ code_of (status_after none m.calls)
  pub opens_same : (d : ℕ) → opens d m.calls ≡ start.opened_before d
  pub closes_same : (d : ℕ) → closes d m.calls ≡ start.closed_before d

-- A call at the end of a trace, with the state that it leads to.
noted :
    (start : Start) (c : Call) (calls : Trace) (m : Monitor)
    → m.calls ≡ calls ++ (c ∷ [])
    → m.ring ≡ push_all ring_buffer_capacity start.ring (taken calls ++ bytes_of c)
    → m.timed_out ≡ (was_killed calls || is_kill c)
    → m.child_done ≡ is_some (status_of c (status_after none calls))
    → m.exit_code ≡ code_of (status_of c (status_after none calls))
    → ((d : ℕ) → opens d calls + opens_of d c ≡ start.opened_before d)
    → ((d : ℕ) → closes d calls + closes_of d c ≡ start.closed_before d)
    → IsTraced start m
noted start c calls m e er et ed ec eo ek =
    let es = status_after-append none calls (c ∷ []) in
    record {
      ring_of =
          er
          ∙ sym (
              ap (λ cs. push_all ring_buffer_capacity start.ring (taken cs)) e
              ∙ ap (push_all ring_buffer_capacity start.ring) (taken_last calls c));
      timed_out_of = et ∙ sym (ap was_killed e ∙ was_killed_last calls c);
      child_done_of = ed ∙ sym (ap (λ cs. is_some (status_after none cs)) e ∙ ap is_some es);
      exit_code_is = ec ∙ sym (ap (λ cs. code_of (status_after none cs)) e ∙ ap code_of es);
      opens_same = λ d. ap (opens d) e ∙ opens_last d calls c ∙ eo d;
      closes_same = λ d. ap (closes d) e ∙ closes_last d calls c ∙ ek d;
    }

-- A call that reads no bytes, kills nothing and reaps nothing.
abbrev pub IsQuiet : Call → Type 0
IsQuiet c =
    (bytes_of c ≡ [])
    × (is_kill c ≡ false)
    × ((last : Option ChildStatus) → status_of c last ≡ last)

pub quiet-IsTraced :
    (start : Start) (c : Call) (m : Monitor)
    → IsQuiet c
    → ((d : ℕ) → (opens_of d c ≡ 0) × (closes_of d c ≡ 0))
    → IsTraced start m
    → IsTraced start (note c m)
quiet-IsTraced start c m (q0, q1, q2) q t =
    noted start c m.calls (note c m) refl
      (t.ring_of
        ∙ ap (push_all ring_buffer_capacity start.ring)
            (sym (ap (λ bs. taken m.calls ++ bs) q0 ∙ append-nil (taken m.calls))))
      (t.timed_out_of ∙ sym (ap (λ b. was_killed m.calls || b) q1 ∙ or_false (was_killed m.calls)))
      (t.child_done_of ∙ ap is_some (sym (q2 (status_after none m.calls))))
      (t.exit_code_is ∙ ap code_of (sym (q2 (status_after none m.calls))))
      (λ d. omega (arith, t.opens_same d, (q d).0)) (λ d. omega (arith, t.closes_same d, (q d).1))

module _ (start : Start) where
  drain_pipe-IsTraced :
      (reads : List (List ℕ)) (m : Monitor) → IsTraced start m → IsTraced start (drain_pipe reads m)
  unfolding drain_pipe write
  drain_pipe-IsTraced [] m t = record {
    ring_of = t.ring_of;
    timed_out_of = t.timed_out_of;
    child_done_of = t.child_done_of;
    exit_code_is = t.exit_code_is;
    opens_same = t.opens_same;
    closes_same = t.closes_same;
  }
  drain_pipe-IsTraced ([] ∷ reads) m t = t
  drain_pipe-IsTraced ((b ∷ bs) ∷ reads) m t =
      let m' =
        note (took (b ∷ bs)) (record m { ring = push_all ring_buffer_capacity m.ring (b ∷ bs) }) in
      drain_pipe-IsTraced reads m' (
        noted start (took (b ∷ bs)) m.calls m' refl
          (ap (λ r. push_all ring_buffer_capacity r (b ∷ bs)) t.ring_of
            ∙ sym (push_all-append ring_buffer_capacity (taken m.calls) (b ∷ bs) start.ring))
          (t.timed_out_of ∙ sym (or_false (was_killed m.calls))) t.child_done_of t.exit_code_is
          (λ d. omega (arith, t.opens_same d)) (λ d. omega (arith, t.closes_same d)))

  or_true : (b : Bool) → (b || true) ≡ true
  or_true true = refl
  or_true false = refl

  finish_child-IsTraced :
      (status : ChildStatus) (m : Monitor)
      → IsTraced start m
      → IsTraced start (finish_child status m)
  unfolding finish_child
  finish_child-IsTraced status m t =
      noted start (reaped status) m.calls (finish_child status m) refl
        (t.ring_of
          ∙ ap (push_all ring_buffer_capacity start.ring) (sym (append-nil (taken m.calls))))
        (t.timed_out_of ∙ sym (or_false (was_killed m.calls))) refl refl
        (λ d. omega (arith, t.opens_same d)) (λ d. omega (arith, t.closes_same d))

  kill_child-IsTraced :
      (child_pid : ℕ) (pidfd : Option ℕ) (m : Monitor)
      → IsTraced start m
      → IsTraced start (kill_child child_pid pidfd (record m { timed_out = true }))
  unfolding kill_child
  kill_child-IsTraced child_pid none m t =
      noted start (killed_pid child_pid) m.calls _ refl
        (t.ring_of
          ∙ ap (push_all ring_buffer_capacity start.ring) (sym (append-nil (taken m.calls))))
        (sym (or_true (was_killed m.calls))) t.child_done_of t.exit_code_is
        (λ d. omega (arith, t.opens_same d)) (λ d. omega (arith, t.closes_same d))
  kill_child-IsTraced child_pid (some fd) m t =
      noted start (killed_by_fd fd) m.calls _ refl
        (t.ring_of
          ∙ ap (push_all ring_buffer_capacity start.ring) (sym (append-nil (taken m.calls))))
        (sym (or_true (was_killed m.calls))) t.child_done_of t.exit_code_is
        (λ d. omega (arith, t.opens_same d)) (λ d. omega (arith, t.closes_same d))

  unwatched-IsTraced :
      (fd : ℕ) (m : Monitor) → IsTraced start m → IsTraced start (note (unwatched fd) m)
  unwatched-IsTraced fd m t =
      quiet-IsTraced start (unwatched fd) m (refl, refl, λ last. refl) (λ d. (refl, refl)) t

  pipe_closed-IsTraced :
      (m : Monitor) → IsTraced start m → IsTraced start (record m { pipe_closed = true })
  pipe_closed-IsTraced m t = record {
    ring_of = t.ring_of;
    timed_out_of = t.timed_out_of;
    child_done_of = t.child_done_of;
    exit_code_is = t.exit_code_is;
    opens_same = t.opens_same;
    closes_same = t.closes_same;
  }

  pub if-IsTraced :
      (b : Bool) (m m' : Monitor)
      → IsTraced start m
      → IsTraced start m'
      → IsTraced start (if b then m else m')
  if-IsTraced true m m' t t' = t
  if-IsTraced false m m' t t' = t'

  module _ (child_pid : ℕ) (pidfd : Option ℕ) (pipe_fd : ℕ) (timeout_ms : ℕ) where
    time_out-IsTraced :
        (m : Monitor)
        → IsTraced start m
        → IsTraced start (time_out child_pid pidfd pipe_fd timeout_ms m)
    unfolding time_out
    time_out-IsTraced m t = kill_child-IsTraced child_pid pidfd m t

    close_pipe-IsTraced :
        (reads : List (List ℕ)) (m : Monitor)
        → IsTraced start m
        → IsTraced start (close_pipe child_pid pidfd pipe_fd timeout_ms reads m)
    unfolding close_pipe
    close_pipe-IsTraced reads m t =
        unwatched-IsTraced pipe_fd (record (drain_pipe reads m) { pipe_closed = true })
          (pipe_closed-IsTraced (drain_pipe reads m) (drain_pipe-IsTraced reads m t))

    drain_if-IsTraced :
        (b : Bool) (reads : List (List ℕ)) (m : Monitor)
        → IsTraced start m
        → IsTraced start (drain_if child_pid pidfd pipe_fd timeout_ms b reads m)
    unfolding drain_if
    drain_if-IsTraced true reads m t = drain_pipe-IsTraced reads m t
    drain_if-IsTraced false reads m t = t

    reap-IsTraced :
        (o : Option ℕ) (status : ChildStatus) (m : Monitor)
        → IsTraced start m
        → IsTraced start
            (elim o [ none ↦ m | some fd ↦ note (unwatched fd) (finish_child status m) ])
    reap-IsTraced none status m t = t
    reap-IsTraced (some fd) status m t =
        unwatched-IsTraced fd (finish_child status m) (finish_child-IsTraced status m t)

    on_event-IsTraced :
        (e : Event) (m : Monitor)
        → IsTraced start m
        → IsTraced start (on_event child_pid pidfd pipe_fd timeout_ms e m)
    unfolding on_event
    on_event-IsTraced (pipe_event readable hung_up reads reads') m t =
        let t' = drain_if-IsTraced readable reads m t in
        if-IsTraced hung_up _ _ (close_pipe-IsTraced reads' _ t') t'
    on_event-IsTraced (child_event none) m t = t
    on_event-IsTraced (child_event (some status)) m t = reap-IsTraced pidfd status m t
    on_event-IsTraced other_event m t = t

    on_events-IsTraced :
        (es : List Event) (m : Monitor)
        → IsTraced start m
        → IsTraced start (on_events child_pid pidfd pipe_fd timeout_ms es m)
    unfolding on_events
    on_events-IsTraced [] m t = t
    on_events-IsTraced (e ∷ es) m t = on_events-IsTraced es _ (on_event-IsTraced e m t)

    before_wait-IsTraced :
        (elapsed_ms : ℕ) (m : Monitor)
        → IsTraced start m
        → IsTraced start (before_wait child_pid pidfd pipe_fd timeout_ms elapsed_ms m).1
    unfolding before_wait
    before_wait-IsTraced elapsed_ms m t =
        elim (Bool-cases (remaining_of child_pid pidfd pipe_fd timeout_ms elapsed_ms == 0)) [
          | inl e ↦ rw e (time_out-IsTraced m t)
          | inr e ↦ rw e t
        ]

    reap_by-IsTraced :
        (o : Option ℕ) (status : ChildStatus) (m : Monitor)
        → IsTraced start m
        → IsTraced start
            (elim o [ none ↦ if m.child_done then m else finish_child status m | some fd ↦ m ])
    reap_by-IsTraced none status m t =
        if-IsTraced m.child_done _ _ t (finish_child-IsTraced status m t)
    reap_by-IsTraced (some fd) status m t = t

    reap_by_pid-IsTraced :
        (o : Option ChildStatus) (m : Monitor)
        → IsTraced start m
        → IsTraced start (reap_by_pid child_pid pidfd pipe_fd timeout_ms o m)
    unfolding reap_by_pid
    reap_by_pid-IsTraced none m t = t
    reap_by_pid-IsTraced (some status) m t = reap_by-IsTraced pidfd status m t

    round-IsTraced :
        (r : Round) (events : List Event) (m : Monitor)
        → IsTraced start m
        → IsTraced start (round child_pid pidfd pipe_fd timeout_ms r events m)
    unfolding round after_wait last_drain
    round-IsTraced r events m t =
        let t1 = before_wait-IsTraced r.elapsed_ms m t in
        let t2 = if-IsTraced _ _ _ (time_out-IsTraced _ t1) t1 in
        let t3 = reap_by_pid-IsTraced r.reaped_status _ (on_events-IsTraced events _ t2) in
        if-IsTraced _ _ _ (close_pipe-IsTraced r.last_reads _ t3) t3

    pub monitor_loop-IsTraced :
        (rounds : List Round) (m m' : Monitor)
        → IsTraced start m
        → monitor_loop child_pid pidfd pipe_fd timeout_ms rounds m ≡ some m'
        → IsTraced start m'
    unfolding monitor_loop
    monitor_loop-IsTraced [] m m' t h = elim (Bool-cases m.draining) [
      | inl d ↦ let h' = rw (monitor_loop, d) at h in cc (h')
      | inr d ↦ elim (Bool-cases (m.child_done && m.pipe_closed)) [
        | inl e ↦ let h' = rw (monitor_loop, d, e) at h in subst (IsTraced start) (cc (h')) t
        | inr e ↦ let h' = rw (monitor_loop, d, e) at h in cc (h')
      ]
    ]
    monitor_loop-IsTraced (r ∷ rounds) m m' t h = elim (Bool-cases m.draining) [
      | inl d ↦ let h' = rw (monitor_loop, d) at h in cc (h')
      | inr d ↦ elim (Bool-cases (m.child_done && m.pipe_closed)) [
        | inl e ↦ let h' = rw (monitor_loop, d, e) at h in subst (IsTraced start) (cc (h')) t
        | inr e ↦ elim (Option-cases r.wait) [
          | inl w ↦
              let h' = rw (monitor_loop, d, e, w) at h in
              subst (IsTraced start) (cc (h')) (before_wait-IsTraced r.elapsed_ms m t)
          | inr (events, w) ↦
              let h' = rw (monitor_loop, d, e, w) at h in
              monitor_loop-IsTraced rounds _ m' (round-IsTraced r events m t) h'
        ]
      ]
    ]
