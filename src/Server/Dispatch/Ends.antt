-- ===== src/Server/Dispatch/Ends.antt =====
-- How `run` ends with the handlers of `dispatch_frame`.
use axiom_vm.Prelude.{ℕ, ◌≡◌, ap, sym, subst, ◌∙◌, Bool, true, Option, some, List, ◌∷◌}
use axiom_vm.Server.Slot.{Core}
use axiom_vm.Server.Services.{Services}
use axiom_vm.Server.Clients.{Server}
use axiom_vm.Server.Events.{Ready, Status, returned, run, handle_events}
use axiom_vm.Server.Events.Shutdown.{Closed, cleanup_lem}
use axiom_vm.Server.Events.Stopping.{IsStopped, KeepsStopped}
use axiom_vm.Server.Events.Terminates.{Terminates, run-Terminates}
use axiom_vm.Server.Dispatch.{dispatch}
use axiom_vm.Server.Dispatch.Running.{Stops, shuts, stays, dispatch-running}

module _ {W : Type 0} (services : Services W) where
  Stops-IsStopped :
      (opcode : ℕ) (core : Core W) {out : Bool × Core W}
      → IsStopped core
      → Stops opcode core.running out
      → IsStopped out.1
  Stops-IsStopped opcode core h (shuts e (done, stopped)) = stopped
  Stops-IsStopped opcode core h (stays e same) = same ∙ h

  pub dispatch-KeepsStopped : KeepsStopped (dispatch services)
  dispatch-KeepsStopped fd header payload core h =
      Stops-IsStopped header.opcode core h (dispatch-running services fd header payload core)

  -- A running server that meets SIGTERM or SIGINT anywhere in a batch of events, whatever the
  -- requests and the components behind the handlers do: the rest of the batch is handled, then `run`
  -- returns, whatever epoll_wait would answer next; on return every slot is free, and each client
  -- that was connected at the end of the batch has been deregistered and closed once, in the order
  -- of the table.
  pub run_dispatch-Terminates :
      (buffer_capacity : ℕ) (stop_bridge : W → W) (es : List Ready)
      (batches : List (Option (List Ready))) (s : Server W)
      → s.core.running ≡ true
      → Terminates es
      → let (status, s') =
          run buffer_capacity (dispatch services) stop_bridge (some es ∷ batches) s in
        let served = handle_events buffer_capacity (dispatch services) stop_bridge es s in
        (status ≡ returned) × Closed served.clients served.core (s'.clients, s'.core)
  run_dispatch-Terminates buffer_capacity stop_bridge es batches s on h =
      let served = handle_events buffer_capacity (dispatch services) stop_bridge es s in
      let ends =
        run-Terminates buffer_capacity (dispatch services) stop_bridge dispatch-KeepsStopped es
          batches s on h in
      (
        ap (λ (r : Status × Server W). r.0) ends,
        subst (λ (r : Status × Server W). Closed served.clients served.core (r.1.clients, r.1.core))
            (sym ends) (cleanup_lem buffer_capacity (dispatch services) stop_bridge served).0,
      )
