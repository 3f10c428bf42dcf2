-- ===== src/Tests/Process.antt =====
-- A short run of a command through include/axiom/process.hpp.
use axiom_vm.Prelude.{
  ℕ, ◌≤◌, ◌≡◌, refl, true, false, none, some, List, [], ◌∷◌, ◌++◌, arith, length, length-replicate,
  replicate, codes,
}
use axiom_vm.Common.{Result, ok}
use axiom_vm.RingBuffer.{RingBuffer, empty, clear, push_all}
use axiom_vm.RingBuffer.Invariant.{IsValid, empty-IsValid}
use axiom_vm.Server.Services.{ExecOptions, ExecResult}
use axiom_vm.Diff.Scan.{listed, no_more, dir_opened, dir_closed}
use axiom_vm.Process.{
  Call, scanned, ring_buffer_capacity, opened, closed, unwatched, took, killed_by_fd, reaped,
  signalled, Round, pipe_event, child_event, Monitor, monitor_loop,
}
use axiom_vm.Process.Run.{Trace, Answers, run, result_of, execute_child, shell}
use axiom_vm.Process.Trace.{opens, closes}
use axiom_vm.Process.Drained.{now, after}
use axiom_vm.Process.Ends.{by_descriptor, run-returns}
use axiom_vm.Process.Output.{Outcome, run-Outcome}
use axiom_vm.Process.Descriptors.{run-closes-opens}

abbrev options : ExecOptions
options = record { command = codes "ls"; working_dir = codes "/"; timeout_ms = 100; flags = 3 }

-- Two bytes come, then nothing until the time is over, then the killed child is reaped.
abbrev last_round : Round
last_round = record {
  elapsed_ms = 120;
  wait = some (child_event (some (signalled 9)) ∷ []);
  reaped_status = none;
  last_reads = (b'!' ∷ []) ∷ [] ∷ [];
}

abbrev first_rounds : List Round
first_rounds =
    record {
      elapsed_ms = 0;
      wait = some (pipe_event true false ((b'h' ∷ b'i' ∷ []) ∷ [] ∷ []) ([] ∷ []) ∷ []);
      reaped_status = none;
      last_reads = [] ∷ [];
    }
    ∷ []

abbrev answers : Answers
answers = record {
  pipe = some (3, 4);
  child = some 100;
  pidfd = some 5;
  reactor = some 6;
  pidfd_added = true;
  pipe_added = true;
  rounds = first_rounds ++ (last_round ∷ []);
  pre = listed 7 no_more;
  post = listed 8 no_more;
  start_cycles = 10;
  end_cycles = 25;
}

ring : RingBuffer
ring = empty ring_buffer_capacity

ring-IsValid : IsValid ring_buffer_capacity ring
unfolding ring
ring-IsValid = empty-IsValid ring_buffer_capacity (omega arith) (omega arith)

dest : List ℕ
dest = replicate ring_buffer_capacity 0

length-dest : ring_buffer_capacity ≤ length dest
unfolding dest
length-dest = omega (arith, length-replicate {A = ℕ} ring_buffer_capacity 0)

abbrev snapshot_of : ℕ → Call
snapshot_of fd = scanned (dir_opened fd ∷ dir_closed fd ∷ [])

abbrev calls : Trace
calls =
    snapshot_of 7
    ∷ opened 3
    ∷ opened 4
    ∷ opened 5
    ∷ closed 4
    ∷ opened 6
    ∷ took (b'h' ∷ b'i' ∷ [])
    ∷ killed_by_fd 5
    ∷ reaped (signalled 9)
    ∷ unwatched 5
    ∷ took (b'!' ∷ [])
    ∷ unwatched 3
    ∷ closed 6
    ∷ closed 3
    ∷ closed 5
    ∷ snapshot_of 8
    ∷ []

abbrev ended : Monitor
ended = record {
  ring =
      push_all ring_buffer_capacity (push_all ring_buffer_capacity (clear ring) (b'h' ∷ b'i' ∷ []))
        (b'!' ∷ []);
  child_done = true;
  pipe_closed = true;
  timed_out = true;
  exit_code = 137;
  draining = false;
  calls =
      snapshot_of 7
      ∷ opened 3
      ∷ opened 4
      ∷ opened 5
      ∷ closed 4
      ∷ opened 6
      ∷ took (b'h' ∷ b'i' ∷ [])
      ∷ killed_by_fd 5
      ∷ reaped (signalled 9)
      ∷ unwatched 5
      ∷ took (b'!' ∷ [])
      ∷ unwatched 3
      ∷ [];
}

run_ends :
    run options answers dest 8192 ring
    ≡ some (ok (result_of options answers dest 8192 ended), calls)
unfolding run monitor_loop
run_ends = refl

run-Outcome_example : Outcome options dest 8192 calls (result_of options answers dest 8192 ended)
run-Outcome_example =
    run-Outcome options answers dest 8192 ring ring-IsValid length-dest calls
      (result_of options answers dest 8192 ended) run_ends (omega arith)

run-closes-opens_example : closes 7 calls ≡ opens 7 calls
run-closes-opens_example =
    run-closes-opens 7 answers options dest 8192 ring
      (ok (result_of options answers dest 8192 ended)) calls run_ends

run-returns_example :
    (answer : Result ExecResult × Trace) × (run options answers dest 8192 ring ≡ some answer)
run-returns_example =
    run-returns answers first_rounds [] last_round refl (by_descriptor 5 [] [] (signalled 9) refl)
      ((((after now, now), tt), now), tt) ((tt, tt), after now) options dest 8192 ring

-- A command longer than 511 bytes is cut.
long_command :
    execute_child (record options { command = replicate 600 b'a' }) true
    ≡ (some (codes "/"), shell (replicate 511 b'a'))
unfolding execute_child
long_command = refl
