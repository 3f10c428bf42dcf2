-- ===== src/Tests/Server.antt =====
-- The server on concrete clients, with a buffer of 16 bytes.
use axiom_vm.Prelude.{
  ℕ, ◌≡◌, refl, true, false, none, some, List, [], ◌∷◌, ◌++◌, arith, zero, suc, Bool, All, IsByte,
  drop, inl, inr,
}
use axiom_vm.FixedVector.{as_span}
use axiom_vm.FixedVector.Refine.{IsValid}
use axiom_vm.Server.Os.{
  WriteAnswer, wrote, interrupted, would_block, Outcome, write_loop, write_loop-prefix,
  write_loop-total,
}
use axiom_vm.Server.Consume.{consume, consume_lem}
use axiom_vm.Server.Frames.{Handler, process_client_frames}
use axiom_vm.Server.Frames.Round.{serve}
use axiom_vm.Server.Frames.Served.{Split, Ended, process_client_frames-Ended}
use axiom_vm.Server.Clients.{Server, got, receive}
use axiom_vm.Server.Clients.Table.{Received, receive-Received}
use axiom_vm.Server.Events.{
  Ready, signals, client, sigterm, sigchld, returned, run, cleanup, handle_events,
}
use axiom_vm.Server.Events.Shutdown.{Closed, cleanup_lem}
use axiom_vm.Server.Dispatch.Ends.{run_dispatch-Terminates}
use axiom_vm.Server.Dispatch.{dispatch}
use axiom_vm.Server.Dispatch.Running.{Stops, dispatch-running}
use axiom_vm.Wire.Headers.{FrameHeader}
use axiom_vm.Server.Slot.{Core}
use axiom_vm.Server.Dispatch.Contract.{Bounded}
use axiom_vm.Server.Dispatch.Responses.{Responded}
use axiom_vm.Server.Dispatch.Respond.{dispatch-Responded}
use axiom_vm.Server.Dispatch.Session
use axiom_vm.Server.Dispatch.Session.{process_client_frames-Received}
use axiom_vm.Server.Events.{listener, handle_event}
use axiom_vm.Server.Clients.{slot_at}
use axiom_vm.Server.Events.Distinct.{IsDistinct, IsFresh}
use axiom_vm.Server.Events.Change.{Change, IsPlaced, handle_event-Change}
use axiom_vm.Server.Events.Valid.{TableIsValid, handle_events-TableIsValid}
use axiom_vm.Tests.Sample.{
  are_bytes_lem, ping_bytes, capacity, pinging, silent, unused, idle, refusing,
}

abbrev handler : Handler ℕ
handler = dispatch refusing

pinging-IsValid : IsValid capacity pinging.rx_buffer
pinging-IsValid = record { storage = refl; within = omega arith }

pinging-AllByte : All IsByte (as_span pinging.rx_buffer)
unfolding as_span
pinging-AllByte = are_bytes_lem (as_span pinging.rx_buffer) refl

process_client_frames-Ended_example :
    (s : Split capacity (as_span pinging.rx_buffer)) × Ended capacity handler pinging
      (as_span pinging.rx_buffer)
      s
      (serve capacity handler pinging.fd s.frames idle)
      (process_client_frames capacity handler pinging idle)
process_client_frames-Ended_example =
    process_client_frames-Ended capacity handler pinging idle (omega arith) (omega arith)
      pinging-IsValid pinging-AllByte

receive-Received_example :
    Received capacity handler pinging idle
      (as_span pinging.rx_buffer ++ (1 ∷ 2 ∷ 3 ∷ []))
      (receive capacity handler (got 1 (2 ∷ 3 ∷ [])) pinging idle)
receive-Received_example =
    receive-Received capacity handler pinging idle 1 (2 ∷ 3 ∷ []) (omega arith) (omega arith)
      pinging-IsValid pinging-AllByte (are_bytes_lem (1 ∷ 2 ∷ 3 ∷ []) refl)

consume_lem_example :
    (as_span (consume capacity pinging.rx_buffer 12) ≡ drop 12 (as_span pinging.rx_buffer))
    × IsValid capacity (consume capacity pinging.rx_buffer 12)
    × ((consume capacity pinging.rx_buffer 12).size ≡ 2)
consume_lem_example =
    consume_lem capacity pinging.rx_buffer 12 pinging-IsValid (omega arith) (omega arith)

abbrev answers : List WriteAnswer
answers = wrote 2 ∷ interrupted ∷ would_block true ∷ wrote 1 ∷ []

write_loop-prefix_example :
    let (done, out, _) = write_loop (1 ∷ 2 ∷ 3 ∷ 4 ∷ []) answers in
    (rest : List ℕ) × (out ++ rest ≡ 1 ∷ 2 ∷ 3 ∷ 4 ∷ []) × Outcome done rest
write_loop-prefix_example = write_loop-prefix answers (1 ∷ 2 ∷ 3 ∷ 4 ∷ [])

write_loop-total_example :
    let (done, out, _) = write_loop (1 ∷ 2 ∷ []) answers in (done ≡ true) × (out ≡ 1 ∷ 2 ∷ [])
write_loop-total_example =
    write_loop-total answers (1 ∷ 2 ∷ []) (omega arith, (tt, (tt, (omega arith, tt)))) (omega arith)

-- A table with two clients and a free place.
abbrev serving : Server ℕ
serving = record { core = idle; clients = pinging ∷ unused ∷ silent ∷ [] }

cleanup_lem_example :
    let s = cleanup capacity handler (λ w. w) serving in
    Closed serving.clients serving.core (s.clients, s.core) × (s.core.world ≡ serving.core.world)
cleanup_lem_example = cleanup_lem capacity handler (λ w. w) serving

dispatch-running_example : Stops 0xFF true (
    dispatch refusing
      (some 5)
      (record { magic = 0xAA55; opcode = 0xFF; request_id = 1; payload_len = 0 })
      []
      idle)
dispatch-running_example =
    dispatch-running refusing (some 5)
      (record { magic = 0xAA55; opcode = 0xFF; request_id = 1; payload_len = 0 }) [] idle

-- A client sends a ping, then a child ends and SIGTERM arrives.
abbrev busy : List Ready
busy = client 6 true false (got 0x55 (drop 1 ping_bytes)) ∷ signals (sigchld ∷ sigterm ∷ []) ∷ []

run_dispatch-Terminates_example :
    let (status, s') = run capacity handler (λ w. w) (some busy ∷ none ∷ []) serving in
    let served = handle_events capacity handler (λ w. w) busy serving in
    (status ≡ returned) × Closed served.clients served.core (s'.clients, s'.core)
run_dispatch-Terminates_example =
    run_dispatch-Terminates refusing capacity (λ w. w) busy (none ∷ []) serving refl
      (inl (inr (inl tt)))

refusing-Bounded : Bounded refusing 5
refusing-Bounded = record {
  run_fits = λ opts w r e. cc;
  ast_fits = record {
    symbols_fit = λ path source count text e. cc;
    slice_fits = λ path source symbol s small e. cc;
  };
  tree_fits = λ w count text e. cc;
  read_fits = λ fd count w bytes e. cc;
  opens_other = λ path flags mode fd w e. cc;
}

-- A request to run "ls", with the request id 9.
abbrev exec_header : FrameHeader
exec_header = record { magic = 0xAA55; opcode = 0x10; request_id = 9; payload_len = 14 }

abbrev exec_payload : List ℕ
exec_payload = 0 ∷ 0 ∷ 0 ∷ 0 ∷ 0 ∷ 0 ∷ 0 ∷ 0 ∷ 2 ∷ 0 ∷ 0 ∷ 0 ∷ b'l' ∷ b's' ∷ []

-- A kernel that takes the response in two writes.
abbrev writable : Core ℕ
writable = record idle { os = record { answers = wrote 30 ∷ wrote 6 ∷ []; trace = [] } }

dispatch-Responded_example :
    Responded 5 exec_header exec_payload writable
      (dispatch refusing (some 5) exec_header exec_payload writable)
dispatch-Responded_example =
    dispatch-Responded refusing 5 exec_header exec_payload writable refusing-Bounded

process_client_frames-Received_example :
    let out = process_client_frames capacity (dispatch refusing) pinging writable in
    (s : Split capacity (as_span pinging.rx_buffer)) × (served : Bool × Core ℕ) × Session.Received 5
      s.frames writable
      (served.0, out.1)
    × Ended capacity (dispatch refusing) pinging (as_span pinging.rx_buffer) s served out
process_client_frames-Received_example =
    process_client_frames-Received capacity refusing 5 pinging writable refusing-Bounded
      (omega arith) (omega arith) refl pinging-IsValid pinging-AllByte

serving-TableIsValid : TableIsValid capacity 3 serving.clients
unfolding as_span
serving-TableIsValid = record {
  places_kept = refl;
  all_hold = (
    record { valid = pinging-IsValid; bytes = pinging-AllByte },
    (
      record { valid = record { storage = refl; within = omega arith }; bytes = tt },
      (record { valid = record { storage = refl; within = omega arith }; bytes = tt }, tt),
    ),
  );
}

handle_events-TableIsValid_example :
    TableIsValid capacity 3 (handle_events capacity handler (λ w. w) busy serving).clients
handle_events-TableIsValid_example =
    handle_events-TableIsValid capacity 3 handler (λ w. w) (omega arith) busy serving
      (are_bytes_lem ping_bytes refl, (tt, tt)) serving-TableIsValid

-- One client and a free place.
abbrev lonely : Server ℕ
lonely = record { core = idle; clients = pinging ∷ unused ∷ [] }

lonely-IsDistinct : IsDistinct lonely.clients
lonely-IsDistinct zero zero d e f = refl
lonely-IsDistinct zero (suc zero) d e f = cc
lonely-IsDistinct zero (suc (suc j)) d e f = cc
lonely-IsDistinct (suc zero) j d e f = cc
lonely-IsDistinct (suc (suc i)) j d e f = cc

seven-IsFresh : IsFresh (listener (some 7) true) lonely.clients
seven-IsFresh zero e = cc
seven-IsFresh (suc zero) e = cc
seven-IsFresh (suc (suc j)) e = cc

handle_event-Change_example :
    let s = handle_event capacity handler (λ w. w) (listener (some 7) true) lonely in
    IsDistinct s.clients
    × IsPlaced (listener (some 7) true) lonely.clients s.clients
    × ((i : ℕ) → Change (listener (some 7) true) (slot_at lonely.clients i) (slot_at s.clients i))
handle_event-Change_example =
    handle_event-Change capacity handler (λ w. w) (listener (some 7) true) lonely seven-IsFresh
      lonely-IsDistinct
