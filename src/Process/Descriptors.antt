-- ===== src/Process/Descriptors.antt =====
-- A run of include/axiom/process.hpp closes what it opens.
use axiom_vm.Prelude.{
  Bool, true, append-nil, ℕ, ◌+◌, ◌≡◌, refl, sym, subst, false, ◌&&◌, not, Option, none, some, List,
  [], ◌∷◌, ◌++◌, arith, Bool-cases, inl, inr, Option-cases,
}
use axiom_vm.Common.{Result, ok, err, SystemError, Result-cases}
use axiom_vm.Diff.Scan.{Listing, capture}
use axiom_vm.Diff.Descriptors.{capture-closes}
use axiom_vm.RingBuffer.{RingBuffer, clear}
use axiom_vm.Server.Services.{ExecOptions, ExecResult}
use axiom_vm.Process.{opened, closed, no_exit_code, Monitor, monitor_loop}
use axiom_vm.Process.Run.{
  Trace, Answers, is_some, close_reactor, monitor_child, close_pidfd, open_pidfd, after_monitor,
  run, scan_trace, snapshot, watch_dir, captures_diff, first_calls,
}
use axiom_vm.Process.Trace.{
  opens, closes, closes_of, opens_last, closes_last, opens-append, closes-append,
}
use axiom_vm.Process.Monitored.{monitor_child-IsTraced, IsIdle-start, IsIdle}

module _ (d : ℕ) where
  -- From one trace to a later one a descriptor is closed as often as it is opened.
  abbrev Even : Trace → Trace → Type 0
  Even calls calls' = closes d calls' + opens d calls ≡ opens d calls' + closes d calls

  module _ (a : Answers) where
    reactor-Even :
        (calls : Trace) (fd : ℕ) → Even calls (close_reactor fd (calls ++ (opened fd ∷ [])))
    reactor-Even calls fd =
        let one = calls ++ (opened fd ∷ []) in
        omega (
          arith,
          opens_last d calls (opened fd),
          closes_last d calls (opened fd),
          opens_last d one (closed fd),
          closes_last d one (closed fd),
        )

    -- Behind the two registrations the monitor has no error.
    not_err :
        (child_pid pipe_fd timeout_ms : ℕ) (ring : RingBuffer) (calls calls' : Trace)
        (x : SystemError) (fd : ℕ)
        → a.reactor ≡ some fd
        → (is_some a.pidfd && not a.pidfd_added) ≡ false
        → not a.pipe_added ≡ false
        → ¬ (monitor_child a child_pid pipe_fd timeout_ms ring calls ≡ some (err x, calls'))
    unfolding monitor_child
    not_err child_pid pipe_fd timeout_ms ring calls calls' x fd e f g h =
        let looped = monitor_loop child_pid a.pidfd pipe_fd timeout_ms a.rounds (record {
          ring = ring;
          child_done = false;
          pipe_closed = false;
          timed_out = false;
          exit_code = no_exit_code;
          draining = false;
          calls = calls ++ (opened fd ∷ []);
        }) in
        elim (Option-cases looped) [
          | inl l ↦ let h' = rw (monitor_child, e, f, g, l) at h in cc (h')
          | inr (m, l) ↦ let h' = rw (monitor_child, e, f, g, l) at h in cc (h')
        ]

    monitor_child-Even :
        (child_pid pipe_fd timeout_ms : ℕ) (ring : RingBuffer) (calls calls' : Trace)
        (r : Result Monitor)
        → IsIdle a calls
        → monitor_child a child_pid pipe_fd timeout_ms ring calls ≡ some (r, calls')
        → Even calls calls'
    unfolding monitor_child
    monitor_child-Even child_pid pipe_fd timeout_ms ring calls calls' (ok m) idle h =
        let (fd, t, e) =
          monitor_child-IsTraced a child_pid pipe_fd timeout_ms ring calls calls' m idle h in
        subst (Even calls) (sym e) (
          omega (
            arith,
            t.opens_same d,
            t.closes_same d,
            opens_last d calls (opened fd),
            closes_last d calls (opened fd),
            opens_last d m.calls (closed fd),
            closes_last d m.calls (closed fd),
          ))
    monitor_child-Even child_pid pipe_fd timeout_ms ring calls calls' (err x) idle h =
        elim (Option-cases a.reactor) [
          | inl e ↦
              let h' = rw (monitor_child, e) at h in
              let same : calls ≡ calls' = cc (h') in subst (Even calls) same (omega arith)
          | inr (fd, e) ↦ elim (Bool-cases (is_some a.pidfd && not a.pidfd_added)) [
            | inl f ↦
                let h' = rw (monitor_child, e, f) at h in
                let same : close_reactor fd (calls ++ (opened fd ∷ [])) ≡ calls' = cc (h') in
                subst (Even calls) same (reactor-Even calls fd)
            | inr f ↦ elim (Bool-cases (not a.pipe_added)) [
              | inl g ↦
                  let h' = rw (monitor_child, e, f, g) at h in
                  let same : close_reactor fd (calls ++ (opened fd ∷ [])) ≡ calls' = cc (h') in
                  subst (Even calls) same (reactor-Even calls fd)
              | inr g ↦ absurd (not_err child_pid pipe_fd timeout_ms ring calls calls' x fd e f g h)
            ]
          ]
        ]

    -- The same, where a descriptor is closed `n` times more.
    close_pidfd-even :
        (n : ℕ) (pidfd : Option ℕ) (calls calls' : Trace)
        → closes d calls' + opens d (open_pidfd pidfd calls)
          ≡ opens d calls' + closes d (open_pidfd pidfd calls) + n
        → closes d (close_pidfd pidfd calls') + opens d calls
          ≡ opens d (close_pidfd pidfd calls') + closes d calls + n
    close_pidfd-even n none calls calls' h = h
    close_pidfd-even n (some fd) calls calls' h = omega (
      arith,
      opens_last d calls (opened fd),
      closes_last d calls (opened fd),
      opens_last d calls' (closed fd),
      closes_last d calls' (closed fd),
    )

    -- The trace of a snapshot is even by itself.
    scan_trace-even :
        (options : ExecOptions) (flag : Bool) (root : Listing)
        → closes d (scan_trace flag (snapshot options root))
          ≡ opens d (scan_trace flag (snapshot options root))
    unfolding snapshot
    scan_trace-even options false root = refl
    scan_trace-even options true root = elim (Result-cases (capture (watch_dir options) root)) [
      | inl (scan, e) ↦ rw e (omega (arith, capture-closes d (watch_dir options) root scan e))
      | inr (x, e) ↦ rw e refl
    ]

    -- The snapshot after the run, which a run with an error does not take.
    abbrev last_scan : ExecOptions → Result Monitor → Trace
    last_scan options (ok m) = scan_trace (captures_diff options.flags) (snapshot options a.post)
    last_scan options (err e) = []

    last_scan-even :
        (options : ExecOptions) (x : Result Monitor)
        → closes d (last_scan options x) ≡ opens d (last_scan options x)
    last_scan-even options (ok m) = scan_trace-even options (captures_diff options.flags) a.post
    last_scan-even options (err e) = refl

    after_monitor-calls :
        (options : ExecOptions) (dest : List ℕ) (diff_size pipe_fd : ℕ) (x : Result Monitor)
        (cs : Trace)
        → (after_monitor options a dest diff_size pipe_fd (x, cs)).1
          ≡ close_pidfd a.pidfd (cs ++ (closed pipe_fd ∷ [])) ++ last_scan options x
    unfolding after_monitor
    after_monitor-calls options dest diff_size pipe_fd (ok m) cs = refl
    after_monitor-calls options dest diff_size pipe_fd (err e) cs = sym (append-nil _)

    -- Whatever the kernel answers, and with a result or an error, a run that returns has closed every
    -- descriptor exactly as often as it opened it, those of the directories that the snapshots read
    -- among them.
    pub run-closes-opens :
        (options : ExecOptions) (dest : List ℕ) (diff_size : ℕ) (ring : RingBuffer)
        (r : Result ExecResult) (calls : Trace)
        → run options a dest diff_size ring ≡ some (r, calls)
        → closes d calls ≡ opens d calls
    unfolding run
    run-closes-opens options dest diff_size ring r calls h =
        let before = first_calls options a in
        let even_before = scan_trace-even options (captures_diff options.flags) a.pre in
        elim (Option-cases a.pipe) [
          | inl e ↦
              let h' = rw (run, e) at h in
              let same : before ≡ calls = cc (h') in
              subst (λ cs. closes d cs ≡ opens d cs) same even_before
          | inr ((read_end, write_end), e) ↦
              let pair = opened read_end ∷ opened write_end ∷ [] in
              let start = before ++ pair in
              let opens_start = opens-append d before pair in
              let closes_start = closes-append d before pair in
              elim (Option-cases a.child) [
                | inl f ↦
                    let h' = rw (run, e, f) at h in
                    let ends = closed read_end ∷ closed write_end ∷ [] in
                    let same : start ++ ends ≡ calls = cc (h') in
                    subst (λ cs. closes d cs ≡ opens d cs) same
                      (omega (
                        arith,
                        even_before,
                        opens_start,
                        closes_start,
                        opens-append d start ends,
                        closes-append d start ends,
                      ))
                | inr (child_pid, f) ↦
                    let calls' = open_pidfd a.pidfd start ++ (closed write_end ∷ []) in
                    elim (Option-cases
                      (monitor_child a child_pid read_end options.timeout_ms (clear ring) calls')) [
                        | inl g ↦ let h' = rw (run, e, f, g) at h in cc (h')
                        | inr ((x, cs), g) ↦
                            let h' = rw (run, e, f, g) at h in
                            let closing = close_pidfd a.pidfd (cs ++ (closed read_end ∷ [])) in
                            let ends : closing ++ last_scan options x ≡ calls =
                              cc (h', after_monitor-calls options dest diff_size read_end x cs) in
                            let idle =
                              IsIdle-start a (captures_diff options.flags) (snapshot options a.pre)
                                read_end write_end a.pidfd in
                            let even =
                              monitor_child-Even child_pid read_end options.timeout_ms (clear ring)
                                calls' cs x idle g in
                            let n =
                              closes_of d (closed write_end) + closes_of d (closed read_end) in
                            let all =
                              close_pidfd-even n a.pidfd start (cs ++ (closed read_end ∷ [])) (
                                omega (
                                  arith,
                                  even,
                                  opens_last d (open_pidfd a.pidfd start) (closed write_end),
                                  closes_last d (open_pidfd a.pidfd start) (closed write_end),
                                  opens_last d cs (closed read_end),
                                  closes_last d cs (closed read_end),
                                )) in
                            subst (λ k. closes d k ≡ opens d k) ends
                              (omega (
                                arith,
                                all,
                                even_before,
                                opens_start,
                                closes_start,
                                last_scan-even options x,
                                opens-append d closing (last_scan options x),
                                closes-append d closing (last_scan options x),
                              ))
                      ]
              ]
        ]
