-- ===== src/Server/Clients.antt =====
-- The client table of the server: accepting, finding and serving clients.
pub mod Table
pub mod Find
pub mod Valid
use axiom_vm.Prelude.{
  ℕ, zero, suc, Bool, true, false, Option, none, some, List, [], ◌∷◌, if◌then◌else◌, ◌==◌, ◌&&◌,
  not, set, get_or,
}
use mathlib.Core.Option
use axiom_vm.FixedVector.{FixedVector, push_back, clear}
use axiom_vm.Server.Os.{Os, Event, closed, removed, added, record_event}
use axiom_vm.Server.Slot.{ClientSlot, Core, reset, drop_client}
use axiom_vm.Server.Frames.{Handler, process_client_frames}

pub record Server (W : Type 0) : Type 0 where
  pub core : Core W
  pub clients : List ClientSlot

abbrev pub is_free : ClientSlot → Bool
is_free slot = elim slot.fd [ none ↦ true | some _ ↦ false ]

abbrev pub has_fd : ℕ → ClientSlot → Bool
has_fd fd slot = elim slot.fd [ none ↦ false | some d ↦ d == fd ]

-- The place of the first slot that passes a test; a pointer into `clients_` is its place.
unfoldable pub find_slot : (ClientSlot → Bool) → List ClientSlot → Option ℕ
find_slot test [] = none
find_slot test (slot ∷ slots) =
    let later = Option.map suc (find_slot test slots) in if test slot then some 0 else later

unfoldable pub find_free_slot : List ClientSlot → Option ℕ
unfolding find_slot
find_free_slot = find_slot is_free

unfoldable pub find_slot_by_fd : ℕ → List ClientSlot → Option ℕ
unfolding find_slot
find_slot_by_fd fd = find_slot (has_fd fd)

abbrev pub no_slot : ClientSlot
no_slot = record { fd = none; rx_buffer = record { slots = []; size = 0 } }

-- `clients_[i]`, read and written with the state that the handlers share
abbrev pub slot_at : List ClientSlot → ℕ → ClientSlot
slot_at clients i = get_or clients i no_slot

module _ {W : Type 0} where
  abbrev pub put_slot : Server W → ℕ → ClientSlot × Core W → Server W
  put_slot s i (slot, core) = record { core = core; clients = set s.clients i slot }

  abbrev pub note : Event → Server W → Server W
  note e s = record s { core = record s.core { os = record_event e s.core.os } }

  -- `handle_accept`, by the answers of accept4(2) and of epoll_ctl(2)
  unfoldable pub handle_accept : Option ℕ → Bool → Server W → Server W
  unfolding reset record_event clear
  handle_accept none add_ok s = s
  handle_accept (some client_fd) add_ok s = elim (find_free_slot s.clients) [
    | none ↦ note (closed client_fd) s
    | some i ↦
        let slot : ClientSlot = record {
          fd = some client_fd;
          rx_buffer = clear (slot_at s.clients i).rx_buffer;
        } in
        if add_ok
        then note (added client_fd) (record s { clients = set s.clients i slot })
        else put_slot s i (reset slot s.core)
  ]

-- What read(2) gives: some bytes, or none (end of file or an error).
pub data ReadAnswer : Type 0 where
  got : ℕ → List ℕ → ReadAnswer
  nothing : ReadAnswer

-- the loop over the bytes of a chunk: the buffer, and whether all went in
unfoldable pub push_chunk : ℕ → FixedVector ℕ → List ℕ → FixedVector ℕ × Bool
push_chunk capacity v [] = (v, true)
push_chunk capacity v (b ∷ bs) =
    let (v', pushed) = push_back capacity v b in
    let rest = push_chunk capacity v' bs in if pushed then rest else (v', false)

module _ {W : Type 0} (buffer_capacity : ℕ) (handle : Handler W) where
  -- The part of `handle_client_event` under EPOLLIN, and whether the function goes on behind it.
  unfoldable pub receive : ReadAnswer → ClientSlot → Core W → (ClientSlot × Core W) × Bool
  unfolding push_chunk
  receive nothing slot core = (drop_client slot core, false)
  receive (got b bs) slot core =
      let (rx, all_in) = push_chunk buffer_capacity slot.rx_buffer (b ∷ bs) in
      let filled = record slot { rx_buffer = rx } in
      let served = process_client_frames buffer_capacity handle filled core in
      if all_in then (served, true) else (drop_client filled core, false)

  -- The end of `handle_client_event`: a peer that hung up.
  unfoldable pub close_if : Bool → ClientSlot × Core W → ClientSlot × Core W
  close_if hangup (slot, core) =
      if not (is_free slot) && hangup then drop_client slot core else (slot, core)

  unfoldable pub serve_slot : Bool → Bool → ReadAnswer → ClientSlot → Core W → ClientSlot × Core W
  unfolding receive close_if
  serve_slot readable hangup answer slot core =
      let (after, goes_on) = receive answer slot core in
      if readable
      then (if goes_on then close_if hangup after else after)
      else close_if hangup (slot, core)

  -- `handle_client_event`, with the flags EPOLLIN and EPOLLRDHUP | EPOLLHUP | EPOLLERR
  unfoldable pub handle_client_event : ℕ → Bool → Bool → ReadAnswer → Server W → Server W
  unfolding serve_slot record_event
  handle_client_event client_fd readable hangup answer s =
      elim (find_slot_by_fd client_fd s.clients) [
        | none ↦ note (closed client_fd) (note (removed client_fd) s)
        | some i ↦ put_slot s i (serve_slot readable hangup answer (slot_at s.clients i) s.core)
      ]
