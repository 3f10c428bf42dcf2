-- ===== src/Lib.antt =====
-- Verification of the AxiomVM guest appliance: the C++ headers of include/axiom/ that the guest
-- agent guest/axiom-initd is made of. The agent keeps a table of clients that send frames over
-- vsock; it takes complete frames out of their receive buffers, hands each to the handler of its
-- opcode, and sends the response back as a frame.
--
-- The parts, and the files that model them:
--   include/axiom/common.hpp: Common.antt, the error values and `Result`.
--   include/axiom/fixed_vector.hpp: FixedVector.antt, the array `data_` (slots) and `size_`;
--     push_back, pop_back, clear, as_span. Refine.antt compares it with a bounded list.
--   include/axiom/ring_buffer.hpp: RingBuffer.antt, storage, head, tail, size and the running total;
--     write with its loop push_all, push_byte, linearize with its loop copy_out, clear. Invariant,
--     Contents and Laws are about it.
--   include/axiom/ansi.hpp: Ansi.antt, `process_byte` as a function of the state, the byte and the
--     output span with `out_idx`. Emit, Output, Piece and Document are about it.
--   include/axiom/wire.hpp: Wire/Headers.antt, the packed structs with the widths of their fields;
--     Wire/Codec.antt, an encoder and a decoder for each as in the source; Wire/Opcode.antt.
--     Wire/Struct.antt says what memcpy of a packed struct does on a little-endian machine.
--   include/axiom/diff.hpp: Diff.antt, `compute_diff` with its two loops put_new and put_gone; what
--     snprintf prints is written out, a number in at most twenty digits; Diff/Scan.antt, `capture`
--     with `scan_recursive`, over the listings that the kernel gives. Names, Distinct, Files,
--     Report, Exact, Complete and Descriptors are about them.
--   include/axiom/ast.hpp: Ast.antt, its languages and symbols; Ast/Tree.antt, what it takes from
--     tree-sitter, the parser being a parameter; Ast/Record.antt, `find_descendant` and
--     `record_symbol`; Ast/Visit.antt, `collect_symbols_recursive`; Ast/Find.antt, `find_symbol`;
--     Ast/Engine.antt, the operations of `AstEngine`. Ast/Serving.antt puts the engine behind the
--     server's interface.
--   include/axiom/process.hpp: Process.antt, `drain_pipe`, `kill_child` and a round of the loop of
--     `monitor_child`; Process/Run.antt, `monitor_child`, `run` and what the child executes. The
--     answers of the kernel come round by round, and a drain of the pipe that they do not end keeps
--     the run waiting. Ends, Output and Descriptors are about them.
--   include/axiom/cdp.hpp: Cdp.antt, the extraction of fields from JSON text; Cdp/Tree.antt,
--     `filter_and_format`; Cdp/Bridge.antt, `CdpBridge` as a record with its pipes, and
--     Cdp/Commands.antt, what it sends. Handles, Scan and Clicks are about them.
--   include/axiom/server.hpp: Server/Slot.antt, `ClientSlot` and what the handlers share (`Core`);
--     Server/Os.antt, `write_all`; Server/Consume.antt and Server/Frames.antt,
--     `process_client_frames` and `dispatch_frame`; Server/Clients.antt, the table, `handle_accept`
--     and `handle_client_event`; Server/Events.antt, `init`, `run`, `handle_signals` and `cleanup`;
--     Server/Reply.antt, how a handler reads its request and sends its response;
--     Server/Handlers/, one file per group of handlers; Server/Dispatch.antt, the `switch` over the
--     opcode. Server/Services.antt is the interface to what the handlers call: the command runner,
--     the AST engine, the browser bridge and the system calls on files, over a state of their own.
--
-- The kernel: the answers to write(2) are a list that is used up from the front, the answers to the
-- other calls are arguments of the step that makes them, and what the server asks of the kernel is
-- a trace of events (Server/Os.antt). A descriptor of -1 is `none`. The close of a descriptor, an
-- epoll_ctl and a reaping of children are events; time is not modelled, so a poll that times out
-- is the answer `would_block false`.
--
-- Bounds and fuel: a byte is a number below 256, `size_t` wraps at 2 ^ 64 where the source adds or
-- subtracts, `static_cast<uint32_t>` is `% 2 ^ 32`, and an `int32_t` is its two's complement
-- pattern. The capacities of the containers and of the receive buffer are parameters; the theorems
-- ask for 12 <= capacity <= 2 ^ 62 where the frame loop is concerned, which the 65536 bytes of the
-- source meet. The frame loop has fuel for one round more than the buffer has bytes, since each
-- round takes a header at least out of the buffer; the loop of pop_back has the buffer's size;
-- twenty digits hold every 64-bit number. The recursion over a syntax tree has fuel for the height
-- of the tree, the loop over the nodes of a page for one round more than its text has bytes, since
-- each takes a brace at least, and the loop over a child runs once for each answer of the kernel.
--
-- Not modelled: reactor.hpp and signalfd.hpp but for their calls as events, vsock.hpp and
-- bootstrap.hpp, which are sequences of system calls; the branch of the child when the browser is
-- started; the main function of the guest, the clients in Python and TypeScript, the build tools
-- and benchmarks.
pub mod Prelude
pub mod Common
pub mod FixedVector
pub mod RingBuffer
pub mod Ansi
pub mod Wire
pub mod Diff
pub mod Ast
pub mod Process
pub mod Cdp
pub mod Server
mod Tests
