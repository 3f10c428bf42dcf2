-- ===== src/Process/Output.antt =====
-- What a run of include/axiom/process.hpp reports, by the trace of what the kernel gave it.
use axiom_vm.Prelude.{
  ℕ, zero, suc, ◌-◌, ◌^◌, ◌≤◌, ◌<◌, min, ◌≡◌, refl, ap, ap₂, sym, ◌∙◌, subst, Bool, true, false,
  ◌||◌, Option, none, some, List, [], ◌∷◌, ◌++◌, arith, if◌then◌else◌, ltb, length, take, drop,
  replicate, inl, inr, Option-cases, length-drop, length-replicate, take-length-append, take-all,
  append-nil,
}
use axiom_vm.Common.{Result, ok, err}
use axiom_vm.RingBuffer.{RingBuffer, clear, write, push_all, linearize, is_truncated}
use axiom_vm.RingBuffer.Invariant.{IsValid}
use axiom_vm.RingBuffer.Contents.{last}
use axiom_vm.RingBuffer.Laws.{captured, write-linearize, total-captured}
use axiom_vm.Ansi.{State, Sink, filter}
use axiom_vm.Ansi.Emit.{emitted, filter-emitted}
use axiom_vm.Ansi.Output.{length-emitted}
use axiom_vm.Diff.{FileRecord, compute_diff}
use axiom_vm.Diff.Report.{compute_diff-Report}
use axiom_vm.Server.Services.{ExecOptions, ExecResult}
use axiom_vm.Diff.Scan.{Scan}
use axiom_vm.Process.{scanned, ring_buffer_capacity, Call, opened, closed, Monitor}
use axiom_vm.Process.Run.{
  Trace, Answers, monitor_child, strips_ansi, captures_diff, scan_trace, snapshot, records_of,
  first_calls, response_flags, output_of, diff_of, result_of, entries_of, close_pidfd, open_pidfd,
  after_monitor, run,
}
use axiom_vm.Process.Monitored.{monitor_child-IsTraced, IsIdle-start}
use axiom_vm.Process.Trace.{
  taken, was_killed, status_after, code_of, taken_last, was_killed_last, status_after-append,
  or_false,
}
use axiom_vm.Process.Traced.{IsQuiet}

-- The output that a command's bytes give: the last 65536 of them, or their text.
abbrev pub shown_of : Bool → List ℕ → List ℕ
shown_of strip bytes =
    if strip
    then emitted State.ground (last ring_buffer_capacity bytes)
    else last ring_buffer_capacity bytes

module _ (ring : RingBuffer) (bytes : List ℕ) (valid : IsValid ring_buffer_capacity ring) where
  abbrev kept : List ℕ
  kept = last ring_buffer_capacity bytes

  length-kept : length kept ≤ ring_buffer_capacity
  length-kept = omega (arith, length-drop (length bytes - ring_buffer_capacity) bytes)

  linearized :
      (dest : List ℕ)
      → ring_buffer_capacity ≤ length dest
      → let (n, copied) =
          linearize ring_buffer_capacity (captured ring_buffer_capacity ring bytes) dest in
        take n copied ≡ kept
  linearized dest room =
      ap (λ (p : ℕ × List ℕ). take p.0 p.1)
        (write-linearize ring_buffer_capacity ring bytes dest valid room)
      ∙ take-length-append (length kept) kept (drop (length kept) dest) refl

  output_of-captured :
      (strip : Bool) (dest : List ℕ)
      → ring_buffer_capacity ≤ length dest
      → output_of strip (captured ring_buffer_capacity ring bytes) dest ≡ shown_of strip bytes
  unfolding output_of
  output_of-captured false dest room = linearized dest room
  output_of-captured true dest room =
      ap (λ input. let sink = (filter State.ground input dest).1 in take sink.out_idx sink.out)
        (linearized (replicate ring_buffer_capacity 0)
          (omega (arith, length-replicate {A = ℕ} ring_buffer_capacity 0)))
      ∙ ap (λ (t : State × Sink). take t.1.out_idx t.1.out) (filter-emitted State.ground kept dest)
      ∙ fits
    where
      text : List ℕ
      text = emitted State.ground kept

      fits :
          take
            (min (length text) (length dest))
            (take (length dest) text ++ drop (min (length text) (length dest)) dest)
          ≡ text
      fits =
          let short : length text ≤ length dest =
            omega (arith, length-emitted kept State.ground, length-kept) in
          let whole = take-all (length dest) text short in
          let n : length (take (length dest) text) ≡ min (length text) (length dest) =
            ap length whole ∙ (omega arith) in
          take-length-append (min (length text) (length dest)) (take (length dest) text)
            (drop (min (length text) (length dest)) dest) n
          ∙ whole

-- What a run that succeeds reports, by its trace.
pub record Outcome (options : ExecOptions) (dest : List ℕ) (diff_size : ℕ) (calls : Trace)
    (r : ExecResult) : Type 0 where
  pub output_is : r.output ≡ shown_of (strips_ansi options.flags) (taken calls)
  pub output_fits : length r.output ≤ length dest
  pub flags_are :
      r.flags ≡ response_flags (ltb ring_buffer_capacity (length (taken calls))) (was_killed calls)
  pub exit_code_is : r.exit_code ≡ code_of (status_after none calls)
  pub diff_fits : length r.diff ≤ diff_size

length-shown_of :
    (strip : Bool) (bytes : List ℕ) → length (shown_of strip bytes) ≤ ring_buffer_capacity
length-shown_of true bytes =
    let kept = last ring_buffer_capacity bytes in
    omega (
      arith,
      length-emitted kept State.ground,
      length-drop (length bytes - ring_buffer_capacity) bytes,
    )
length-shown_of false bytes = omega (arith, length-drop (length bytes - ring_buffer_capacity) bytes)

length-compute_diff :
    (size : ℕ) (pre post : List FileRecord) → length (compute_diff size pre post) ≤ size
unfolding compute_diff
length-compute_diff zero pre post = omega arith
length-compute_diff (suc size) pre post =
    let r = compute_diff-Report (suc size) pre post (omega arith) in omega (arith, r.bounded)

length-diff_of :
    (capture : Bool) (pre post : Option (List FileRecord)) (size : ℕ)
    → length (diff_of capture pre post size) ≤ size
unfolding diff_of
length-diff_of capture pre none size = omega arith
length-diff_of true pre (some post) size = length-compute_diff size (entries_of pre) post
length-diff_of false pre (some post) size = omega arith

module _ (options : ExecOptions) (a : Answers) (dest : List ℕ) (diff_size : ℕ) (ring : RingBuffer)
    (valid : IsValid ring_buffer_capacity ring) (room : ring_buffer_capacity ≤ length dest) where
  -- The result of a monitor that agrees with its trace.
  result_of-Outcome :
      (m : Monitor)
      → m.ring ≡ push_all ring_buffer_capacity (clear ring) (taken m.calls)
      → m.timed_out ≡ was_killed m.calls
      → m.exit_code ≡ code_of (status_after none m.calls)
      → length (taken m.calls) < 2 ^ 64
      → Outcome options dest diff_size m.calls (result_of options a dest diff_size m)
  unfolding result_of is_truncated write
  result_of-Outcome m er et ex small =
      let bytes = taken m.calls in
      let strip = strips_ansi options.flags in
      let out : output_of strip m.ring dest ≡ shown_of strip bytes =
        ap (λ r. output_of strip r dest) er ∙ output_of-captured ring bytes valid strip dest room in
      let total : m.ring.total_written ≡ length bytes =
        ap (λ (r : RingBuffer). r.total_written) er
        ∙ total-captured ring_buffer_capacity ring bytes small in
      record {
        output_is = out;
        output_fits = omega (arith, ap length out, length-shown_of strip bytes);
        flags_are = ap₂ (λ n b. response_flags (ltb ring_buffer_capacity n) b) total et;
        exit_code_is = ex;
        diff_fits =
            length-diff_of (captures_diff options.flags) (records_of (snapshot options a.pre))
              (records_of (snapshot options a.post)) diff_size;
      }

  -- A call that neither reads nor kills nor reaps leaves the account as it is.
  Outcome-quiet :
      (c : Call) (calls : Trace) (r : ExecResult)
      → IsQuiet c
      → Outcome options dest diff_size calls r
      → Outcome options dest diff_size (calls ++ (c ∷ [])) r
  Outcome-quiet c calls r (q0, q1, q2) o =
      let et : taken (calls ++ (c ∷ [])) ≡ taken calls =
        taken_last calls c ∙ ap (λ bs. taken calls ++ bs) q0 ∙ append-nil (taken calls) in
      let ek : was_killed (calls ++ (c ∷ [])) ≡ was_killed calls =
        was_killed_last calls c
        ∙ ap (λ b. was_killed calls || b) q1
        ∙ or_false (was_killed calls) in
      let es : status_after none (calls ++ (c ∷ [])) ≡ status_after none calls =
        status_after-append none calls (c ∷ []) ∙ q2 (status_after none calls) in
      record {
        output_is = o.output_is ∙ ap (shown_of (strips_ansi options.flags)) (sym et);
        output_fits = o.output_fits;
        flags_are =
            o.flags_are
            ∙ ap₂ (λ (bs : List ℕ) b. response_flags (ltb ring_buffer_capacity (length bs)) b)
                (sym et) (sym ek);
        exit_code_is = o.exit_code_is ∙ ap code_of (sym es);
        diff_fits = o.diff_fits;
      }

  IsQuiet-closed : (fd : ℕ) → IsQuiet (closed fd)
  IsQuiet-closed fd = (refl, refl, λ last. refl)

  close_pidfd-Outcome :
      (pidfd : Option ℕ) (calls : Trace) (r : ExecResult)
      → Outcome options dest diff_size calls r
      → Outcome options dest diff_size (close_pidfd pidfd calls) r
  close_pidfd-Outcome none calls r o = o
  close_pidfd-Outcome (some fd) calls r o = Outcome-quiet (closed fd) calls r (IsQuiet-closed fd) o

  scan_trace-Outcome :
      (flag : Bool) (x : Result Scan) (calls : Trace) (r : ExecResult)
      → Outcome options dest diff_size calls r
      → Outcome options dest diff_size (calls ++ scan_trace flag x) r
  scan_trace-Outcome true (ok scan) calls r o =
      Outcome-quiet (scanned scan.calls) calls r (refl, refl, λ last. refl) o
  scan_trace-Outcome true (err e) calls r o =
      subst (λ cs. Outcome options dest diff_size cs r) (sym (append-nil calls)) o
  scan_trace-Outcome false x calls r o =
      subst (λ cs. Outcome options dest diff_size cs r) (sym (append-nil calls)) o

  taken-scan_trace :
      (flag : Bool) (x : Result Scan) (calls : Trace)
      → taken (calls ++ scan_trace flag x) ≡ taken calls
  taken-scan_trace true (ok scan) calls =
      taken_last calls (scanned scan.calls) ∙ append-nil (taken calls)
  taken-scan_trace true (err e) calls = ap taken (append-nil calls)
  taken-scan_trace false x calls = ap taken (append-nil calls)

  taken-close_pidfd :
      (pidfd : Option ℕ) (calls : Trace) → taken (close_pidfd pidfd calls) ≡ taken calls
  taken-close_pidfd none calls = refl
  taken-close_pidfd (some fd) calls = taken_last calls (closed fd) ∙ append-nil (taken calls)

  -- What a run that succeeds reports: the output is what the last 65536 bytes read from the child's
  -- pipe give, as text if the escape sequences are to be stripped, and fits the destination, as does
  -- the summary of changes; the flags say whether more bytes were read than that, and whether the
  -- child was killed; the exit code is the child's status, 128 more for a signal, or -1 without
  -- one. The ring is valid, the destination holds its capacity, and fewer than 2 ^ 64 bytes are read.
  pub run-Outcome :
      (calls : Trace) (r : ExecResult)
      → run options a dest diff_size ring ≡ some (ok r, calls)
      → length (taken calls) < 2 ^ 64
      → Outcome options dest diff_size calls r
  unfolding run after_monitor
  run-Outcome calls r h small = elim (Option-cases a.pipe) [
    | inl e ↦ let h' = rw (run, e) at h in cc (h')
    | inr ((read_end, write_end), e) ↦ elim (Option-cases a.child) [
      | inl f ↦ let h' = rw (run, e, f) at h in cc (h')
      | inr (child_pid, f) ↦
          let calls' =
            open_pidfd a.pidfd (first_calls options a ++ (opened read_end ∷ opened write_end ∷ []))
            ++ (closed write_end ∷ []) in
          elim (Option-cases
            (monitor_child a child_pid read_end options.timeout_ms (clear ring) calls')) [
              | inl g ↦ let h' = rw (run, e, f, g) at h in cc (h')
              | inr ((err x, cs), g) ↦ let h' = rw (run, e, f, g) at h in cc (h')
              | inr ((ok m, cs), g) ↦
                  let h' = rw (run, e, f, g) at h in
                  let (epoll_fd, t, ce) =
                    monitor_child-IsTraced a child_pid read_end options.timeout_ms (clear ring)
                      calls' cs m
                      (IsIdle-start a (captures_diff options.flags) (snapshot options a.pre)
                        read_end write_end a.pidfd)
                      g in
                  let result = result_of options a dest diff_size m in
                  let same : result ≡ r = cc (h') in
                  let behind = cs ++ (closed read_end ∷ []) in
                  let flag = captures_diff options.flags in
                  let later = snapshot options a.post in
                  let closing = close_pidfd a.pidfd behind in
                  let ends : closing ++ scan_trace flag later ≡ calls = cc (h') in
                  let bytes : taken calls ≡ taken m.calls =
                    ap taken (sym ends)
                    ∙ taken-scan_trace flag later closing
                    ∙ taken-close_pidfd a.pidfd behind
                    ∙ taken_last cs (closed read_end)
                    ∙ append-nil (taken cs)
                    ∙ ap taken ce
                    ∙ taken_last m.calls (closed epoll_fd)
                    ∙ append-nil (taken m.calls) in
                  let small' : length (taken m.calls) < 2 ^ 64 = omega (arith, ap length bytes) in
                  let at_loop =
                    Outcome-quiet (closed epoll_fd) m.calls result (IsQuiet-closed epoll_fd)
                      (result_of-Outcome m t.ring_of t.timed_out_of t.exit_code_is small') in
                  let at_end = close_pidfd-Outcome a.pidfd behind result (
                    Outcome-quiet (closed read_end) cs result (IsQuiet-closed read_end)
                      (subst (λ k. Outcome options dest diff_size k result) (sym ce) at_loop)) in
                  subst (Outcome options dest diff_size calls) same (
                    subst (λ k. Outcome options dest diff_size k result) ends
                      (scan_trace-Outcome flag later closing result at_end))
            ]
    ]
  ]
