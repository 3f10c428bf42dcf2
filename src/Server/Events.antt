-- ===== src/Server/Events.antt =====
-- The event loop of the server: `run`, `handle_signals` and `cleanup`.
pub mod Shutdown
pub mod Stopping
pub mod Terminates
pub mod Valid
pub mod Distinct
pub mod Change
use axiom_vm.Prelude.{ℕ, Bool, true, false, Option, none, some, List, [], ◌∷◌, if◌then◌else◌}
use axiom_vm.Common.{SystemError, Result, ok, err}
use axiom_vm.Server.Os.{Os, Event, reaped, record_event}
use axiom_vm.Server.Slot.{ClientSlot, Core, drop_client}
use axiom_vm.Server.Frames.{Handler}
use axiom_vm.Server.Clients.{Server, is_free, ReadAnswer, note, handle_accept, handle_client_event}

pub data Signal : Type 0 where
  sigchld sigterm sigint other_signal : Signal

module _ {W : Type 0} where
  -- `stop`
  unfoldable pub stop : Server W → Server W
  stop s = record s { core = record s.core { running = false } }

  -- `init`, by what `Reactor::create` and the two calls of `reactor_.add` give, the listener's first
  unfoldable pub init :
      Result (Unit {0})
      → Result (Unit {0})
      → Result (Unit {0})
      → Server W
      → Result (Unit {0}) × Server W
  init (err e) listener_added signal_added s = (err e, s)
  init (ok _) (err e) signal_added s = (err e, s)
  init (ok _) (ok _) (err e) s = (err e, s)
  init (ok _) (ok _) (ok _) s = (ok tt, record s { core = record s.core { running = true } })

  -- `handle_signals`, over the signals that are read from the signalfd until it is empty
  unfoldable pub handle_signals : List Signal → Server W → Server W
  unfolding stop record_event
  handle_signals [] s = s
  handle_signals (sigchld ∷ sigs) s = handle_signals sigs (note reaped s)
  handle_signals (sigterm ∷ sigs) s = handle_signals sigs (stop s)
  handle_signals (sigint ∷ sigs) s = handle_signals sigs (stop s)
  handle_signals (other_signal ∷ sigs) s = handle_signals sigs s

  -- the loop over the clients in `cleanup`
  unfoldable pub close_all : List ClientSlot → Core W → List ClientSlot × Core W
  close_all [] core = ([], core)
  close_all (slot ∷ slots) core =
      let (slot', core') = if is_free slot then (slot, core) else drop_client slot core in
      let (slots', core'') = close_all slots core' in (slot' ∷ slots', core'')

-- One event of epoll_wait(2), by the descriptor that it is about, with the answers of the system
-- calls that its handling makes first.
pub data Ready : Type 0 where
  signals : List Signal → Ready
  listener : Option ℕ → Bool → Ready
  client : ℕ → Bool → Bool → ReadAnswer → Ready

-- How `run` stands: it has returned, or the answers of epoll_wait(2) are used up.
pub data Status : Type 0 where
  returned : Status
  wait_failed : SystemError → Status
  waiting : Status

module _ {W : Type 0} (buffer_capacity : ℕ) (handle : Handler W) (stop_bridge : W → W) where
  unfoldable pub handle_event : Ready → Server W → Server W
  unfolding handle_signals
  handle_event (signals sigs) s = handle_signals sigs s
  handle_event (listener answer add_ok) s = handle_accept answer add_ok s
  handle_event (client fd readable hangup answer) s =
      handle_client_event buffer_capacity handle fd readable hangup answer s

  -- the loop over the events of one epoll_wait(2)
  unfoldable pub handle_events : List Ready → Server W → Server W
  unfolding handle_event
  handle_events [] s = s
  handle_events (e ∷ es) s = handle_events es (handle_event e s)

  unfoldable pub cleanup : Server W → Server W
  unfolding close_all
  cleanup s =
      let (clients, core) = close_all s.clients s.core in
      record { core = record core { world = stop_bridge core.world }; clients = clients }

  -- `run`, over the answers of `reactor_.wait`: a batch of events, or an error. The flag is read
  -- between batches; an error returns with no `cleanup`.
  unfoldable pub run : List (Option (List Ready)) → Server W → Status × Server W
  unfolding handle_events cleanup
  run [] s = if s.core.running then (waiting, s) else (returned, cleanup s)
  run (batch ∷ batches) s = elim s.core.running [
    | false ↦ (returned, cleanup s)
    | true ↦ elim batch [
      | none ↦ (wait_failed SystemError.epoll_error, s)
      | some events ↦ run batches (handle_events events s)
    ]
  ]
