-- ===== src/Server/Events/Terminates.antt =====
-- A termination signal ends the event loop of the server at the end of its batch of events.
use axiom_vm.Prelude.{
  ℕ, ◌≡◌, subst, refl, sym, ◌∙◌, ◌⊎◌, inl, inr, Bool, true, false, Option, none, some, List, [],
  ◌∷◌, Bool-cases, Option-cases,
}
use axiom_vm.Common.{SystemError}
use axiom_vm.Server.Os.{record_event}
use axiom_vm.Server.Slot.{reset}
use axiom_vm.Server.Frames.{Handler}
use axiom_vm.Server.Clients.{Server, handle_accept, find_free_slot}
use axiom_vm.Server.Events.{
  Signal, sigchld, sigterm, sigint, other_signal, handle_signals, stop, Ready, signals, listener,
  client, Status, returned, wait_failed, handle_event, handle_events, cleanup, run,
}
use axiom_vm.Server.Events.Stopping.{IsStopped, KeepsStopped, handle_client_event-IsStopped}

module _ {W : Type 0} where
  handle_accept-running :
      (answer : Option ℕ) (add_ok : Bool) (s : Server W)
      → (handle_accept answer add_ok s).core.running ≡ s.core.running
  unfolding handle_accept reset record_event
  handle_accept-running none add_ok s = refl
  handle_accept-running (some fd) add_ok s = elim (Option-cases (find_free_slot s.clients)) [
    | inl e ↦ rw (handle_accept, e) refl
    | inr (i, e) ↦
        rw (handle_accept, e) (elim (Bool-cases add_ok) [ inl t ↦ rw t refl | inr f ↦ rw f refl ])
  ]

  handle_signals-IsStopped :
      (sigs : List Signal) (s : Server W)
      → IsStopped s.core
      → IsStopped (handle_signals sigs s).core
  unfolding handle_signals record_event stop
  handle_signals-IsStopped [] s h = h
  handle_signals-IsStopped (sigchld ∷ sigs) s h = handle_signals-IsStopped sigs _ h
  handle_signals-IsStopped (sigterm ∷ sigs) s h = handle_signals-IsStopped sigs _ refl
  handle_signals-IsStopped (sigint ∷ sigs) s h = handle_signals-IsStopped sigs _ refl
  handle_signals-IsStopped (other_signal ∷ sigs) s h = handle_signals-IsStopped sigs _ h

-- A signal that asks the server to end.
abbrev pub IsTermination : Signal → Type 0
IsTermination sigterm = Unit
IsTermination sigint = Unit
IsTermination _ = ⊥

abbrev pub HasTermination : List Signal → Type 0
HasTermination [] = ⊥
HasTermination (sig ∷ sigs) = IsTermination sig ⊎ HasTermination sigs

-- A batch of events in which a termination signal is read.
abbrev pub Terminates : List Ready → Type 0
Terminates [] = ⊥
Terminates (signals sigs ∷ es) = HasTermination sigs ⊎ Terminates es
Terminates (_ ∷ es) = Terminates es

module _ {W : Type 0} where
  handle_signals-Terminates :
      (sigs : List Signal) (s : Server W)
      → HasTermination sigs
      → IsStopped (handle_signals sigs s).core
  unfolding handle_signals record_event stop
  handle_signals-Terminates [] s h = elim h [ ]
  handle_signals-Terminates (sigchld ∷ sigs) s (inl h) = elim h [ ]
  handle_signals-Terminates (sigchld ∷ sigs) s (inr h) = handle_signals-Terminates sigs _ h
  handle_signals-Terminates (sigterm ∷ sigs) s h = handle_signals-IsStopped sigs _ refl
  handle_signals-Terminates (sigint ∷ sigs) s h = handle_signals-IsStopped sigs _ refl
  handle_signals-Terminates (other_signal ∷ sigs) s (inl h) = elim h [ ]
  handle_signals-Terminates (other_signal ∷ sigs) s (inr h) = handle_signals-Terminates sigs _ h

module _ {W : Type 0} (buffer_capacity : ℕ) (handle : Handler W) (stop_bridge : W → W)
    (keeps : KeepsStopped handle) where
  handle_event-IsStopped :
      (e : Ready) (s : Server W)
      → IsStopped s.core
      → IsStopped (handle_event buffer_capacity handle stop_bridge e s).core
  unfolding handle_event
  handle_event-IsStopped (signals sigs) s h = handle_signals-IsStopped sigs s h
  handle_event-IsStopped (listener answer add_ok) s h = handle_accept-running answer add_ok s ∙ h
  handle_event-IsStopped (client fd readable hangup answer) s h =
      handle_client_event-IsStopped buffer_capacity handle keeps fd readable hangup answer s h

  handle_events-IsStopped :
      (es : List Ready) (s : Server W)
      → IsStopped s.core
      → IsStopped (handle_events buffer_capacity handle stop_bridge es s).core
  unfolding handle_events
  handle_events-IsStopped [] s h = h
  handle_events-IsStopped (e ∷ es) s h = handle_events-IsStopped es _ (handle_event-IsStopped e s h)

  handle_events-Terminates :
      (es : List Ready) (s : Server W)
      → Terminates es
      → IsStopped (handle_events buffer_capacity handle stop_bridge es s).core
  unfolding handle_events handle_event
  handle_events-Terminates [] s h = elim h [ ]
  handle_events-Terminates (signals sigs ∷ es) s (inl h) =
      handle_events-IsStopped es _ (handle_signals-Terminates sigs s h)
  handle_events-Terminates (signals sigs ∷ es) s (inr h) = handle_events-Terminates es _ h
  handle_events-Terminates (listener answer add_ok ∷ es) s h = handle_events-Terminates es _ h
  handle_events-Terminates (client fd readable hangup answer ∷ es) s h =
      handle_events-Terminates es _ h

  run_step :
      (es : List Ready) (batches : List (Option (List Ready))) (s : Server W)
      → s.core.running ≡ true
      → run buffer_capacity handle stop_bridge (some es ∷ batches) s
        ≡ run buffer_capacity handle stop_bridge batches
            (handle_events buffer_capacity handle stop_bridge es s)
  unfolding run
  run_step es batches s on =
      subst
        (λ b.
          elim b [ false ↦ (returned, cleanup buffer_capacity handle stop_bridge s) | true ↦ next ]
          ≡ next)
        (sym on) refl
    where
      next : Status × Server W
      next =
          run buffer_capacity handle stop_bridge batches
            (handle_events buffer_capacity handle stop_bridge es s)

  run_stopped :
      (batches : List (Option (List Ready))) (s : Server W)
      → IsStopped s.core
      → run buffer_capacity handle stop_bridge batches s
        ≡ (returned, cleanup buffer_capacity handle stop_bridge s)
  unfolding run
  run_stopped [] s off = simp off
  run_stopped (batch ∷ batches) s off =
      subst
        (λ b.
          elim b [
            | false ↦ ended
            | true ↦ elim batch [
              | none ↦ (wait_failed SystemError.epoll_error, s)
              | some events ↦
                  run buffer_capacity handle stop_bridge batches
                    (handle_events buffer_capacity handle stop_bridge events s)
            ]
          ]
          ≡ ended)
        (sym off) refl
    where
      ended : Status × Server W
      ended = (returned, cleanup buffer_capacity handle stop_bridge s)

  -- With handlers that never set the flag again, a running server that meets SIGTERM or SIGINT
  -- anywhere in a batch of events handles the rest of that batch, then `run` returns after
  -- `cleanup`, whatever epoll_wait would answer next.
  pub run-Terminates :
      (es : List Ready) (batches : List (Option (List Ready))) (s : Server W)
      → s.core.running ≡ true
      → Terminates es
      → run buffer_capacity handle stop_bridge (some es ∷ batches) s ≡ (
        returned,
        cleanup buffer_capacity handle stop_bridge
            (handle_events buffer_capacity handle stop_bridge es s),
      )
  run-Terminates es batches s on h =
      run_step es batches s on ∙ run_stopped batches _ (handle_events-Terminates es s h)
