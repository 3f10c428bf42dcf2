-- ===== src/Cdp/Bridge.antt =====
-- `CdpBridge` of include/axiom/cdp.hpp: its state, and how it writes and reads its pipes. The
-- answers of the kernel wait in the state: the counts of the writes, 0 for one that fails, and the
-- bytes that Chromium sends, none where the wait for one fails or is too long.
use axiom_vm.Prelude.{
  ℕ, ◌+◌, ◌-◌, ◌^◌, min, Bool, true, false, ◌&&◌, Option, none, some, List, [], ◌∷◌, ◌++◌,
  if◌then◌else◌, ltb, leb, ◌==◌, length, take, drop, get_or, set, replicate, codes, same_text,
}
use axiom_vm.Common.{Result, ok, err, io_error, protocol_error}
use axiom_vm.Diff.{decimal}
use axiom_vm.Server.Handlers.Files.{c_string}
use axiom_vm.Cdp.{find_text, extract_field_str}
use axiom_vm.Cdp.Tree.{max_handles}

-- What the bridge asks of the kernel besides reading and writing.
pub data Call : Type 0 where
  opened : ℕ → Call
  closed : ℕ → Call
  killed : ℕ → Call
  waited : ℕ → Call

-- `CdpBridge`, with the kernel's answers to come and what was asked and sent so far. A descriptor or
-- a process of -1 is `none`.
pub record Bridge : Type 0 where
  pub to_chrome_fd : Option ℕ
  pub from_chrome_fd : Option ℕ
  pub child_pid : Option ℕ
  pub next_req_id : ℕ
  pub started : Bool
  pub session_id : List ℕ
  pub handle_map : List ℕ
  pub writes : List ℕ
  pub incoming : List (Option ℕ)
  pub sent : List ℕ
  pub calls : List Call

-- An operation gives a result or an error, and the bridge afterwards.
abbrev pub M : Type 0 → Type 0
M A = Bridge → Result A × Bridge

infixl 5 ◌>>=◌ ◌>>◌
abbrev pub ◌>>=◌ : {A B : Type 0} → M A → (A → M B) → M B
◌>>=◌ m f b = let (r, b') = m b in elim r [ ok a ↦ f a b' | err e ↦ (err e, b') ]

abbrev pub ◌>>◌ : {A B : Type 0} → M A → M B → M B
m >> k = m >>= λ _. k

abbrev pub give : {A : Type 0} → A → M A
give a b = (ok a, b)

-- `(void)` before a call: its answer is not read, its effects stay
abbrev pub ignore : {A : Type 0} → M A → M (Unit {0})
ignore m b = (ok tt, (m b).1)

abbrev pub note : Call → Bridge → Bridge
note c b = record b { calls = b.calls ++ (c ∷ []) }

unfoldable pub close_fd : Option ℕ → Bridge → Bridge
close_fd none b = b
close_fd (some fd) b = note (closed fd) b

unfoldable pub end_child : Option ℕ → Bridge → Bridge
end_child none b = b
end_child (some pid) b = note (waited pid) (note (killed pid) b)

unfoldable pub stop : Bridge → Bridge
unfolding close_fd end_child
stop b =
    let ended = end_child b.child_pid (close_fd b.from_chrome_fd (close_fd b.to_chrome_fd b)) in
    record ended {
      to_chrome_fd = none;
      from_chrome_fd = none;
      child_pid = none;
      started = false;
      session_id = [];
      next_req_id = 1;
      handle_map = replicate max_handles 0;
    }

-- The move: what waits for the descriptors goes with them.
unfoldable pub move_from : Bridge → Bridge → Bridge × Bridge
unfolding stop
move_from other b = (
  record (stop b) {
    to_chrome_fd = other.to_chrome_fd;
    from_chrome_fd = other.from_chrome_fd;
    child_pid = other.child_pid;
    next_req_id = other.next_req_id;
    started = other.started;
    session_id = other.session_id;
    handle_map = other.handle_map;
    writes = other.writes;
    incoming = other.incoming;
  },
  record other {
    to_chrome_fd = none;
    from_chrome_fd = none;
    child_pid = none;
    started = false;
    session_id = [];
    handle_map = replicate max_handles 0;
  },
)

unfoldable pub get_backend_node_id : ℕ → Bridge → ℕ
get_backend_node_id handle b =
    if ltb handle (length b.handle_map) then get_or b.handle_map handle 0 else 0

unfoldable pub set_handle_mapping : ℕ → ℕ → Bridge → Bridge
set_handle_mapping handle backend_id b =
    if ltb handle (length b.handle_map)
    then record b { handle_map = set b.handle_map handle backend_id }
    else b

unfoldable pub init_from_fds : ℕ → ℕ → M (Unit {0})
unfolding stop
init_from_fds to_fd from_fd b = (
  ok tt,
  record (stop b) { to_chrome_fd = some to_fd; from_chrome_fd = some from_fd; started = true },
)

-- the loop of `write_pipe`: whether it succeeds, what was written, and the answers that are left
unfoldable pub write_loop : List ℕ → List ℕ → Bool × List ℕ × List ℕ
write_loop answers [] = (true, [], answers)
write_loop [] (c ∷ cmd) = (false, [], [])
write_loop (n ∷ answers) (c ∷ cmd) =
    let (done, out, rest) = write_loop answers (drop n (c ∷ cmd)) in
    if n == 0 then (false, [], answers) else (done, take n (c ∷ cmd) ++ out, rest)

-- one of the two parts that `write_pipe` writes
unfoldable pub write_part : List ℕ → M (Unit {0})
unfolding write_loop
write_part bytes b =
    let (done, out, rest) = write_loop b.writes bytes in
    let b' = record b { writes = rest; sent = b.sent ++ out } in
    if done then (ok tt, b') else (err io_error, b')

unfoldable pub write_pipe : List ℕ → M (Unit {0})
unfolding write_part
write_pipe cmd b = elim b.to_chrome_fd [
  | none ↦ (err io_error, b)
  | some fd ↦ (do write_part cmd; write_part (0 ∷ [])) b
]

-- `CDP_BUFFER_SIZE`
abbrev pub cdp_buffer_size : ℕ
cdp_buffer_size = 131072

unfoldable pub is_in : List ℕ → List ℕ → Bool
is_in needle msg = elim (find_text needle msg) [ none ↦ false | some _ ↦ true ]

-- the loop of `read_msg_matching`, with what stands in `rx_buf_`
unfoldable pub read_loop : List ℕ → List ℕ → List (Option ℕ) → Result (List ℕ) × List (Option ℕ)
unfolding is_in
read_loop needle rx [] = (err io_error, [])
read_loop needle rx (none ∷ incoming) = (err io_error, incoming)
read_loop needle rx (some c ∷ incoming) =
    let rx' =
      if c == 0 then [] else if ltb (length rx + 1) cdp_buffer_size then rx ++ (c ∷ []) else rx in
    let further = read_loop needle rx' incoming in
    if c == 0 && is_in needle rx then (ok rx, incoming) else further

unfoldable pub read_msg_matching : ℕ → M (List ℕ)
unfolding read_loop
read_msg_matching req_id b = elim b.from_chrome_fd [
  | none ↦ (err io_error, b)
  | some fd ↦
      let (msg, rest) = read_loop (codes "\"id\":" ++ decimal req_id) [] b.incoming in
      (msg, record b { incoming = rest })
]

-- `next_req_id_++`
unfoldable pub next_id : M ℕ
next_id b = (ok b.next_req_id, record b { next_req_id = b.next_req_id + 1 })

abbrev pub session : M (List ℕ)
session b = (ok b.session_id, b)

-- "%d" of an int32_t
unfoldable pub int_text : ℕ → List ℕ
int_text n = if ltb n (2 ^ 31) then decimal n else b'-' ∷ decimal (2 ^ 32 - n)

-- The beginning of a command with a session, and a whole one.
abbrev pub command_head : ℕ → List ℕ → List ℕ → List ℕ
command_head id session_id method =
    codes "{\"id\":"
    ++ (int_text id
        ++ (codes ",\"sessionId\":\""
            ++ (c_string session_id ++ (codes "\",\"method\":\"" ++ (method ++ codes "\"")))))

abbrev pub command : ℕ → List ℕ → List ℕ → List ℕ → List ℕ
command id session_id method params =
    command_head id session_id method ++ (codes ",\"params\":" ++ (params ++ codes "}"))

-- a text that must not be empty
unfoldable pub required : List ℕ → M (List ℕ)
required [] b = (err protocol_error, b)
required (c ∷ cs) b = (ok (c ∷ cs), b)

unfoldable pub set_session : List ℕ → M (Unit {0})
set_session session_str b =
    (ok tt, record b { session_id = take (min (length session_str) 63) session_str })

-- `rfind`: the last place where a text stands with at least `n` bytes from there on
unfoldable find_last : List ℕ → ℕ → List ℕ → Option (List ℕ)
find_last needle n [] = none
find_last needle n (b ∷ bs) = elim (find_last needle n bs) [
  | some found ↦ some found
  | none ↦
      if same_text (take (length needle) (b ∷ bs)) needle && leb n (length (b ∷ bs))
      then some (b ∷ bs)
      else none
]

abbrev or_else : Option (List ℕ) → Option (List ℕ) → Option (List ℕ)
or_else (some a) o = some a
or_else none o = o

-- The id of the target at the first page: the last one before the page, or the first behind it.
unfoldable pub page_target : List ℕ → List ℕ
unfolding find_last extract_field_str
page_target resp =
    let page =
      or_else (find_text (codes "\"type\":\"page\"") resp)
        (find_text (codes "\"type\": \"page\"") resp) in
    let id = codes "\"targetId\"" in
    elim page [
      | none ↦ []
      | some at ↦ elim (or_else (find_last id (length at) resp) (find_text id at)) [
        | none ↦ []
        | some target ↦ extract_field_str target id
      ]
    ]
