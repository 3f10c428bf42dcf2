-- ===== src/Process/Run.antt =====
-- `monitor_child`, `execute_child` and `run` of include/axiom/process.hpp.
use axiom_vm.Prelude.{
  ℕ, ◌+◌, ◌-◌, ◌%◌, ◌/◌, min, Bool, true, false, not, ◌&&◌, Option, none, some, List, [], ◌∷◌, ◌++◌,
  if◌then◌else◌, leb, ◌==◌, length, take, codes, replicate,
}
use axiom_vm.Common.{Result, ok, err, epoll_error, process_spawn_error}
use axiom_vm.RingBuffer.{RingBuffer, clear, linearize, is_truncated}
use axiom_vm.Ansi.{State, filter}
use axiom_vm.Diff.{FileRecord, compute_diff}
use axiom_vm.Diff.Scan.{Listing, Scan, capture}
use axiom_vm.Server.Services.{ExecOptions, ExecResult}
use axiom_vm.Server.Handlers.Files.{c_string}
use axiom_vm.Process.{
  ring_buffer_capacity, Call, scanned, opened, closed, waited, Round, Monitor, note, no_exit_code,
  monitor_loop,
}

-- The kernel's answers to one run of a command.
pub record Answers : Type 0 where
  -- pipe2(2): the end to read and the end to write
  pub pipe : Option (ℕ × ℕ)
  -- clone3(2), or fork(2) where that is missing: the child's number
  pub child : Option ℕ
  -- the child's descriptor, from clone3(2) or pidfd_open(2)
  pub pidfd : Option ℕ
  -- epoll_create1(2) and the two registrations
  pub reactor : Option ℕ
  pub pidfd_added : Bool
  pub pipe_added : Bool
  pub rounds : List Round
  -- the directory, as the two snapshots find it
  pub pre : Listing
  pub post : Listing
  pub start_cycles : ℕ
  pub end_cycles : ℕ

-- The trace goes on from one part of the run to the next.
abbrev pub Trace : Type 0
Trace = List Call

-- `if (!child_done) waitpid(...)` behind the loop
unfoldable pub last_wait : Monitor → Monitor
last_wait m = if m.child_done then m else note waited m

-- the reactor's destructor at each return
abbrev pub close_reactor : ℕ → Trace → Trace
close_reactor epoll_fd calls = calls ++ (closed epoll_fd ∷ [])

abbrev pub is_some {ℓ} : {A : Type ℓ} → Option A → Bool
is_some none = false
is_some (some a) = true

-- `monitor_child`; `none` while the loop waits for another round
unfoldable pub monitor_child :
    Answers → ℕ → ℕ → ℕ → RingBuffer → Trace → Option (Result Monitor × Trace)
unfolding last_wait
monitor_child a child_pid pipe_fd timeout_ms ring calls = elim a.reactor [
  | none ↦ some (err epoll_error, calls)
  | some epoll_fd ↦
      let calls' = calls ++ (opened epoll_fd ∷ []) in
      if is_some a.pidfd && not a.pidfd_added
      then some (err epoll_error, close_reactor epoll_fd calls')
      else if not a.pipe_added
      then some (err epoll_error, close_reactor epoll_fd calls')
      else elim (monitor_loop child_pid a.pidfd pipe_fd timeout_ms a.rounds (record {
        ring = ring;
        child_done = false;
        pipe_closed = false;
        timed_out = false;
        exit_code = no_exit_code;
        draining = false;
        calls = calls';
      })) [
        | none ↦ none
        | some m ↦ let m' = last_wait m in some (ok m', close_reactor epoll_fd m'.calls)
      ]
]

-- `EXEC_FLAG_STRIP_ANSI` and `EXEC_FLAG_CAPTURE_DIFF`
unfoldable pub strips_ansi : ℕ → Bool
strips_ansi flags = flags % 2 == 1

unfoldable pub captures_diff : ℕ → Bool
captures_diff flags = flags / 2 % 2 == 1

-- the answer's flags, `EXEC_RESP_TRUNCATED` and `EXEC_RESP_TIMED_OUT`
unfoldable pub response_flags : Bool → Bool → ℕ
response_flags truncated timed_out = (if truncated then 1 else 0) + (if timed_out then 2 else 0)

-- The output: the first bytes of the destination, which are all that the result counts.
unfoldable pub output_of : Bool → RingBuffer → List ℕ → List ℕ
output_of strip ring dest =
    if strip
    then (let (raw_len, raw_linear) =
          linearize ring_buffer_capacity ring (replicate ring_buffer_capacity 0) in
        let sink = (filter State.ground (take raw_len raw_linear) dest).1 in
        take sink.out_idx sink.out)
    else (let (n, copied) = linearize ring_buffer_capacity ring dest in take n copied)

-- `watch_dir`, and a snapshot of it
abbrev pub watch_dir : ExecOptions → List ℕ
watch_dir options = if length options.working_dir == 0 then codes "/tmp" else options.working_dir

unfoldable pub snapshot : ExecOptions → Listing → Result Scan
unfolding capture
snapshot options root = capture (watch_dir options) root

-- the records of a snapshot; none where `capture` refuses the path
abbrev pub records_of : Result Scan → Option (List FileRecord)
records_of (ok scan) = some scan.entries
records_of (err e) = none

-- what a snapshot asks of the kernel, if there is one
abbrev pub scan_trace : Bool → Result Scan → Trace
scan_trace true (ok scan) = scanned scan.calls ∷ []
scan_trace true (err e) = []
scan_trace false taken = []

-- the snapshot before, which is empty where `capture` fails
abbrev pub entries_of : Option (List FileRecord) → List FileRecord
entries_of none = []
entries_of (some records) = records

unfoldable pub diff_of : Bool → Option (List FileRecord) → Option (List FileRecord) → ℕ → List ℕ
diff_of capture pre none size = []
diff_of capture pre (some post) size =
    if capture then compute_diff size (entries_of pre) post else []

-- the end of `run`, behind the monitor
unfoldable pub result_of : ExecOptions → Answers → List ℕ → ℕ → Monitor → ExecResult
unfolding strips_ansi captures_diff response_flags output_of diff_of snapshot
result_of options a output_dest diff_size m = record {
  exit_code = m.exit_code;
  flags = response_flags (is_truncated ring_buffer_capacity m.ring) m.timed_out;
  cpu_cycles = if leb a.start_cycles a.end_cycles then a.end_cycles - a.start_cycles else 0;
  output = output_of (strips_ansi options.flags) m.ring output_dest;
  diff =
      diff_of (captures_diff options.flags) (records_of (snapshot options a.pre))
        (records_of (snapshot options a.post)) diff_size;
}

abbrev pub close_pidfd : Option ℕ → Trace → Trace
close_pidfd none calls = calls
close_pidfd (some pidfd) calls = calls ++ (closed pidfd ∷ [])

abbrev pub open_pidfd : Option ℕ → Trace → Trace
open_pidfd none calls = calls
open_pidfd (some pidfd) calls = calls ++ (opened pidfd ∷ [])

-- What is left of a run: the answer of the monitor, and the closing of what is open.
unfoldable pub after_monitor :
    ExecOptions → Answers → List ℕ → ℕ → ℕ → Result Monitor × Trace → Result ExecResult × Trace
unfolding result_of captures_diff snapshot
after_monitor options a output_dest diff_size pipe_fd (err e, calls) =
    (err e, close_pidfd a.pidfd (calls ++ (closed pipe_fd ∷ [])))
after_monitor options a output_dest diff_size pipe_fd (ok m, calls) = (
  ok (result_of options a output_dest diff_size m),
  close_pidfd a.pidfd (calls ++ (closed pipe_fd ∷ []))
      ++ scan_trace (captures_diff options.flags) (snapshot options a.post),
)

-- the trace of the snapshot before
abbrev pub first_calls : ExecOptions → Answers → Trace
first_calls options a = scan_trace (captures_diff options.flags) (snapshot options a.pre)

-- `run` in the parent; `none` while it waits for the child
unfoldable pub run :
    ExecOptions → Answers → List ℕ → ℕ → RingBuffer → Option (Result ExecResult × Trace)
unfolding monitor_child after_monitor clear captures_diff snapshot
run options a output_dest diff_size ring = elim a.pipe [
  | none ↦ some (err process_spawn_error, first_calls options a)
  | some (read_end, write_end) ↦
      let calls = first_calls options a ++ (opened read_end ∷ opened write_end ∷ []) in
      elim a.child [
        | none ↦ some (err process_spawn_error, calls ++ (closed read_end ∷ closed write_end ∷ []))
        | some child_pid ↦
            let calls' = open_pidfd a.pidfd calls ++ (closed write_end ∷ []) in
            elim (monitor_child a child_pid read_end options.timeout_ms (clear ring) calls') [
              | none ↦ none
              | some answer ↦ some (after_monitor options a output_dest diff_size read_end answer)
            ]
      ]
]

-- What the child becomes: the shell with a command, or the command itself as a program.
pub data Program : Type 0 where
  shell : List ℕ → Program
  direct : List ℕ → List (List ℕ) → Program

abbrev environment : List (List ℕ)
environment =
    codes "PATH=/bin:/sbin:/usr/bin:/usr/sbin" ∷ codes "HOME=/root" ∷ codes "TERM=dumb" ∷ []

-- `execute_child`: the directory that it changes to, if any, and the program. The texts are cut to
-- their buffers of 256 and 512 bytes, and the kernel reads them up to a zero byte.
unfoldable pub execute_child : ExecOptions → Bool → Option (List ℕ) × Program
unfolding c_string
execute_child options has_shell =
    let cmd_buf = c_string (take (min (length options.command) 511) options.command) in
    (
      if length options.working_dir == 0
          then none
          else some (c_string (take (min (length options.working_dir) 255) options.working_dir)),
      if has_shell then shell cmd_buf else direct cmd_buf environment,
    )
