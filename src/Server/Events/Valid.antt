-- ===== src/Server/Events/Valid.antt =====
-- Every event that the server of include/axiom/server.hpp handles keeps the client table valid.
use axiom_vm.Prelude.{
  ℕ, zero, suc, ◌≤◌, ◌^◌, ◌≡◌, refl, sym, ◌∙◌, subst, inl, inr, Bool, Option, none, some, List, [],
  ◌∷◌, length, set, All, Bool-cases, Option-cases, length-set,
}
use mathlib.Core.Option
use axiom_vm.FixedVector.{clear}
use axiom_vm.Server.Os.{record_event}
use axiom_vm.Server.Slot.{ClientSlot, reset}
use axiom_vm.Server.Frames.{Handler}
use axiom_vm.Server.Clients.{
  Server, ReadAnswer, find_slot, find_free_slot, find_slot_by_fd, is_free, has_fd, slot_at,
  handle_accept, handle_client_event,
}
use axiom_vm.Server.Clients.Valid.{Holds, clear-Holds, ReadsBytes, serve_slot-Holds}
use axiom_vm.Server.Events.{
  Signal, sigchld, sigterm, sigint, other_signal, handle_signals, stop, Ready, signals, listener,
  client, handle_event, handle_events,
}

later : (o : Option ℕ) (i : ℕ) → Option.map suc o ≡ some i → (j : ℕ) × (o ≡ some j) × (suc j ≡ i)
later none i e = cc
later (some j) i e = (j, refl, cc)

module _ {ℓ} (P : ClientSlot → Type ℓ) where
  All-set : (i : ℕ) (xs : List ClientSlot) (x : ClientSlot) → All P xs → P x → All P (set xs i x)
  All-set i [] x h p = h
  All-set zero (y ∷ ys) x h p = (p, h.1)
  All-set (suc i) (y ∷ ys) x h p = (h.0, All-set i ys x h.1 p)

  -- A slot that is found is one of the table.
  find_slot-All :
      (test : ClientSlot → Bool) (xs : List ClientSlot) (i : ℕ)
      → find_slot test xs ≡ some i
      → All P xs
      → P (slot_at xs i)
  unfolding find_slot
  find_slot-All test [] i e h = cc
  find_slot-All test (x ∷ xs) i e h = elim (Bool-cases (test x)) [
    | inl t ↦ let z : 0 ≡ i = at_first (rw t at e) in subst (λ k. P (slot_at (x ∷ xs) k)) z h.0
    | inr t ↦
        let (j, f, z) = later (find_slot test xs) i (rw t at e) in
        subst (λ k. P (slot_at (x ∷ xs) k)) z (find_slot-All test xs j f h.1)
  ]
    where
      at_first : some 0 ≡ some i → 0 ≡ i
      at_first f = cc

-- The invariant of the table: its size is fixed, and every receive buffer has the whole array
-- behind it and holds bytes.
pub record TableIsValid (capacity places : ℕ) (clients : List ClientSlot) : Type 0 where
  pub places_kept : length clients ≡ places
  pub all_hold : All (λ (slot : ClientSlot). Holds capacity slot.rx_buffer) clients

set-TableIsValid :
    (capacity places i : ℕ) (clients : List ClientSlot) (slot : ClientSlot)
    → TableIsValid capacity places clients
    → Holds capacity slot.rx_buffer
    → TableIsValid capacity places (set clients i slot)
set-TableIsValid capacity places i clients slot v h = record {
  places_kept = length-set clients i slot ∙ v.places_kept;
  all_hold = All-set (λ (s : ClientSlot). Holds capacity s.rx_buffer) i clients slot v.all_hold h;
}

found-Holds :
    (capacity places : ℕ) (test : ClientSlot → Bool) (clients : List ClientSlot) (i : ℕ)
    → find_slot test clients ≡ some i
    → TableIsValid capacity places clients
    → Holds capacity (slot_at clients i).rx_buffer
found-Holds capacity places test clients i e v =
    find_slot-All (λ (s : ClientSlot). Holds capacity s.rx_buffer) test clients i e v.all_hold

-- The answers of read(2) in an event are bytes.
abbrev pub EventReadsBytes : Ready → Type 0
EventReadsBytes (client fd readable hangup answer) = ReadsBytes answer
EventReadsBytes _ = Unit {0}

module _ {W : Type 0} (capacity places : ℕ) where
  handle_signals-clients :
      (sigs : List Signal) (s : Server W) → (handle_signals sigs s).clients ≡ s.clients
  unfolding handle_signals record_event stop
  handle_signals-clients [] s = refl
  handle_signals-clients (sigchld ∷ sigs) s = handle_signals-clients sigs _
  handle_signals-clients (sigterm ∷ sigs) s = handle_signals-clients sigs (stop s)
  handle_signals-clients (sigint ∷ sigs) s = handle_signals-clients sigs (stop s)
  handle_signals-clients (other_signal ∷ sigs) s = handle_signals-clients sigs s

  handle_accept-TableIsValid :
      (answer : Option ℕ) (add_ok : Bool) (s : Server W)
      → TableIsValid capacity places s.clients
      → TableIsValid capacity places (handle_accept answer add_ok s).clients
  unfolding handle_accept reset find_free_slot
  handle_accept-TableIsValid none add_ok s v = v
  handle_accept-TableIsValid (some fd) add_ok s v = elim (Option-cases (find_free_slot s.clients)) [
    | inl e ↦ rw (handle_accept, e) v
    | inr (i, e) ↦
        let found = (found-Holds capacity places is_free s.clients i e v).valid in
        rw (handle_accept, e)
          (elim (Bool-cases add_ok) [
            | inl t ↦ rw t (
                set-TableIsValid capacity places i s.clients _ v
                  (clear-Holds capacity (slot_at s.clients i).rx_buffer found))
            | inr f ↦ rw f (
                set-TableIsValid capacity places i s.clients _ v (
                  clear-Holds capacity (clear (slot_at s.clients i).rx_buffer)
                    (clear-Holds capacity (slot_at s.clients i).rx_buffer found).valid))
          ])
  ]

module _ {W : Type 0} (capacity places : ℕ) (handle : Handler W) (stop_bridge : W → W)
    (narrow : capacity ≤ 2 ^ 62) where
  handle_client_event-TableIsValid :
      (fd : ℕ) (readable hangup : Bool) (answer : ReadAnswer) (s : Server W)
      → ReadsBytes answer
      → TableIsValid capacity places s.clients
      → TableIsValid capacity places
          (handle_client_event capacity handle fd readable hangup answer s).clients
  unfolding handle_client_event find_slot_by_fd
  handle_client_event-TableIsValid fd readable hangup answer s new v =
      elim (Option-cases (find_slot_by_fd fd s.clients)) [
        | inl e ↦ rw (handle_client_event, e) v
        | inr (i, e) ↦
            rw (handle_client_event, e)
              (set-TableIsValid capacity places i s.clients _ v (
                serve_slot-Holds capacity handle narrow readable hangup answer (slot_at s.clients i)
                  s.core new (found-Holds capacity places (has_fd fd) s.clients i e v)))
      ]

  handle_event-TableIsValid :
      (e : Ready) (s : Server W)
      → EventReadsBytes e
      → TableIsValid capacity places s.clients
      → TableIsValid capacity places (handle_event capacity handle stop_bridge e s).clients
  unfolding handle_event
  handle_event-TableIsValid (signals sigs) s new v =
      subst (TableIsValid capacity places) (sym (handle_signals-clients capacity places sigs s)) v
  handle_event-TableIsValid (listener answer add_ok) s new v =
      handle_accept-TableIsValid capacity places answer add_ok s v
  handle_event-TableIsValid (client fd readable hangup answer) s new v =
      handle_client_event-TableIsValid fd readable hangup answer s new v

  -- Whatever the handlers do and whatever events arrive, with a capacity of at most 2 ^ 62 and
  -- read(2) answering in bytes: a table whose receive buffers are valid and hold bytes stays so,
  -- and keeps its number of places.
  pub handle_events-TableIsValid :
      (es : List Ready) (s : Server W)
      → All EventReadsBytes es
      → TableIsValid capacity places s.clients
      → TableIsValid capacity places (handle_events capacity handle stop_bridge es s).clients
  unfolding handle_events
  handle_events-TableIsValid [] s new v = v
  handle_events-TableIsValid (e ∷ es) s new v =
      handle_events-TableIsValid es (handle_event capacity handle stop_bridge e s) new.1
        (handle_event-TableIsValid e s new.0 v)
