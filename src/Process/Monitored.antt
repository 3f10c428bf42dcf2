-- ===== src/Process/Monitored.antt =====
-- `monitor_child` of include/axiom/process.hpp agrees with its trace.
use axiom_vm.Prelude.{
  ℕ, ◌≡◌, refl, ap, sym, ◌∙◌, subst, false, ◌&&◌, not, Bool, true, Option, none, some, [], ◌∷◌,
  ◌++◌, Bool-cases, inl, inr, Option-cases, append-nil,
}
use axiom_vm.Common.{Result, ok, err}
use axiom_vm.Diff.Scan.{Scan}
use axiom_vm.RingBuffer.{RingBuffer, push_all}
use axiom_vm.Process.{
  ring_buffer_capacity, opened, closed, waited, Monitor, note, no_exit_code, monitor_loop,
}
use axiom_vm.Process.Run.{
  Trace, Answers, is_some, last_wait, close_reactor, monitor_child, open_pidfd, scan_trace,
}
use axiom_vm.Process.Trace.{
  opens, closes, taken, was_killed, status_after, code_of, taken_last, was_killed_last,
  status_after-append, or_false,
}
use axiom_vm.Process.Traced.{Start, IsTraced, monitor_loop-IsTraced, if-IsTraced, quiet-IsTraced}

module _ (a : Answers) where
  last_wait-IsTraced :
      (start : Start) (m : Monitor) → IsTraced start m → IsTraced start (last_wait m)
  unfolding last_wait
  last_wait-IsTraced start m t =
      if-IsTraced start m.child_done m (note waited m) t
        (quiet-IsTraced start waited m (refl, refl, λ last. refl) (λ d. (refl, refl)) t)

  -- Calls before the loop that only open and close.
  abbrev pub IsIdle : Trace → Type 0
  IsIdle calls = (taken calls ≡ []) × (was_killed calls ≡ false) × (status_after none calls ≡ none)

  abbrev pub begin : RingBuffer → Trace → Start
  begin ring' calls = record {
    ring = ring';
    opened_before = λ d. opens d calls;
    closed_before = λ d. closes d calls;
  }

  first_monitor :
      (ring' : RingBuffer) (calls : Trace)
      → IsIdle calls
      → IsTraced (begin ring' calls) (record {
        ring = ring';
        child_done = false;
        pipe_closed = false;
        timed_out = false;
        exit_code = no_exit_code;
        draining = false;
        calls = calls;
      })
  unfolding push_all
  first_monitor ring' calls (e0, e1, e2) = record {
    ring_of = sym (ap (push_all ring_buffer_capacity ring') e0);
    timed_out_of = sym e1;
    child_done_of = sym (ap is_some e2);
    exit_code_is = sym (ap code_of e2);
    opens_same = λ d. refl;
    closes_same = λ d. refl;
  }

  IsIdle-opened : (calls : Trace) (fd : ℕ) → IsIdle calls → IsIdle (calls ++ (opened fd ∷ []))
  IsIdle-opened calls fd (e0, e1, e2) = (
    taken_last calls (opened fd) ∙ append-nil (taken calls) ∙ e0,
    was_killed_last calls (opened fd) ∙ or_false (was_killed calls) ∙ e1,
    status_after-append none calls (opened fd ∷ []) ∙ e2,
  )

  pub monitor_child-IsTraced :
      (child_pid pipe_fd timeout_ms : ℕ) (ring' : RingBuffer) (calls calls' : Trace) (m : Monitor)
      → IsIdle calls
      → monitor_child a child_pid pipe_fd timeout_ms ring' calls ≡ some (ok m, calls')
      → (epoll_fd : ℕ) × IsTraced (begin ring' (calls ++ (opened epoll_fd ∷ []))) m
        × (calls' ≡ close_reactor epoll_fd m.calls)
  unfolding monitor_child
  monitor_child-IsTraced child_pid pipe_fd timeout_ms ring' calls calls' m idle h =
      elim (Option-cases a.reactor) [
        | inl e ↦ let h' = rw (monitor_child, e) at h in cc (h')
        | inr (epoll_fd, e) ↦ elim (Bool-cases (is_some a.pidfd && not a.pidfd_added)) [
          | inl f ↦ let h' = rw (monitor_child, e, f) at h in cc (h')
          | inr f ↦ elim (Bool-cases (not a.pipe_added)) [
            | inl g ↦ let h' = rw (monitor_child, e, f, g) at h in cc (h')
            | inr g ↦
                let start = begin ring' (calls ++ (opened epoll_fd ∷ [])) in
                let first : Monitor = record {
                  ring = ring';
                  child_done = false;
                  pipe_closed = false;
                  timed_out = false;
                  exit_code = no_exit_code;
                  draining = false;
                  calls = calls ++ (opened epoll_fd ∷ []);
                } in
                elim (Option-cases
                  (monitor_loop child_pid a.pidfd pipe_fd timeout_ms a.rounds first)) [
                    | inl l ↦ let h' = rw (monitor_child, e, f, g, l) at h in cc (h')
                    | inr (m', l) ↦
                        let h' = rw (monitor_child, e, f, g, l) at h in
                        let t = last_wait-IsTraced start m' (
                          monitor_loop-IsTraced start child_pid a.pidfd pipe_fd timeout_ms a.rounds
                            first m' (first_monitor ring' _ (IsIdle-opened calls epoll_fd idle))
                            l) in
                        let same : last_wait m' ≡ m = cc (h') in
                        let ends : close_reactor epoll_fd (last_wait m').calls ≡ calls' = cc (h') in
                        (
                          epoll_fd,
                          subst (IsTraced start) same t,
                          sym ends ∙ ap (λ (k : Monitor). close_reactor epoll_fd k.calls) same,
                        )
                  ]
          ]
        ]
      ]

  pub IsIdle-start :
      (flag : Bool) (x : Result Scan) (read_end write_end : ℕ) (pidfd : Option ℕ)
      → IsIdle (
          open_pidfd pidfd (scan_trace flag x ++ (opened read_end ∷ opened write_end ∷ []))
          ++ (closed write_end ∷ []))
  IsIdle-start true (ok scan) read_end write_end none = (refl, refl, refl)
  IsIdle-start true (ok scan) read_end write_end (some fd) = (refl, refl, refl)
  IsIdle-start true (err e) read_end write_end none = (refl, refl, refl)
  IsIdle-start true (err e) read_end write_end (some fd) = (refl, refl, refl)
  IsIdle-start false x read_end write_end none = (refl, refl, refl)
  IsIdle-start false x read_end write_end (some fd) = (refl, refl, refl)
