-- ===== src/Server/Events/Distinct.antt =====
-- No descriptor stands in two slots of the client table of include/axiom/server.hpp.
use axiom_vm.Prelude.{
  ℕ, zero, suc, ◌+◌, ◌-◌, ◌≡◌, ◌≢◌, refl, ap, sym, ◌∙◌, ◌⊎◌, inl, inr, Bool, true, false, ◌&&◌, not,
  Option, none, some, List, [], ◌∷◌, set, ltb, Bool-cases, Option-cases,
}
use axiom_vm.Common.{Result-cases}
use axiom_vm.FixedVector.{as_span}
use axiom_vm.Wire.Headers.{FrameHeader}
use axiom_vm.Wire.Codec.{decode_header, header_size}
use axiom_vm.Server.Os.{record_event}
use axiom_vm.Server.Slot.{ClientSlot, Core, reset, drop_client, drop_client_lem}
use axiom_vm.Server.Frames.{Handler, payload_of, dispatch_frame, frame_loop, process_client_frames}
use axiom_vm.Server.Clients.{
  Server, ReadAnswer, got, nothing, push_chunk, receive, close_if, serve_slot, is_free,
  find_free_slot, find_slot_by_fd, slot_at, handle_accept, handle_client_event,
}
use axiom_vm.Server.Events.{
  Signal, sigchld, sigterm, sigint, other_signal, handle_signals, stop, Ready, signals, listener,
  client, handle_event,
}

-- A descriptor is found in one place of the table at most.
abbrev pub IsDistinct : List ClientSlot → Type 0
IsDistinct clients =
    (i j d : ℕ) → (slot_at clients i).fd ≡ some d → (slot_at clients j).fd ≡ some d → i ≡ j

slot_at-set :
    (clients : List ClientSlot) (i : ℕ) (slot : ClientSlot) (a : ℕ)
    → ((slot_at (set clients i slot) a ≡ slot) × (a ≡ i))
      ⊎ (slot_at (set clients i slot) a ≡ slot_at clients a)
slot_at-set [] i slot a = inr refl
slot_at-set (x ∷ xs) zero slot zero = inl (refl, refl)
slot_at-set (x ∷ xs) zero slot (suc a) = inr refl
slot_at-set (x ∷ xs) (suc i) slot zero = inr refl
slot_at-set (x ∷ xs) (suc i) slot (suc a) = elim (slot_at-set xs i slot a) [
  | inl (e, f) ↦ inl (e, ap suc f)
  | inr e ↦ inr e
]

fd_of : ClientSlot → Option ℕ
fd_of slot = slot.fd

set-IsDistinct :
    (clients : List ClientSlot) (i : ℕ) (slot : ClientSlot)
    → IsDistinct clients
    → ((j d : ℕ) → slot.fd ≡ some d → (slot_at clients j).fd ≡ some d → j ≡ i)
    → IsDistinct (set clients i slot)
unfolding fd_of
set-IsDistinct clients i slot distinct only a b d at_a at_b = elim (slot_at-set clients i slot a) [
  | inl (e, f) ↦ elim (slot_at-set clients i slot b) [
    | inl (e', f') ↦ f ∙ sym f'
    | inr e' ↦ f ∙ sym (only b d (sym (ap fd_of e) ∙ at_a) (sym (ap fd_of e') ∙ at_b))
  ]
  | inr e ↦ elim (slot_at-set clients i slot b) [
    | inl (e', f') ↦ only a d (sym (ap fd_of e') ∙ at_b) (sym (ap fd_of e) ∙ at_a) ∙ sym f'
    | inr e' ↦ distinct a b d (sym (ap fd_of e) ∙ at_a) (sym (ap fd_of e') ∙ at_b)
  ]
]

-- A client keeps its descriptor or has none afterwards.
abbrev pub KeepsFd : ClientSlot → ClientSlot → Type 0
KeepsFd slot slot' = (d : ℕ) → slot'.fd ≡ some d → slot.fd ≡ some d

module _ {W : Type 0} (capacity : ℕ) (handle : Handler W) where
  drop_client-KeepsFd : (slot : ClientSlot) (core : Core W) → KeepsFd slot (drop_client slot core).0
  drop_client-KeepsFd slot core d e =
      gone (sym (ap (λ (r : ClientSlot × Core W). r.0.fd) (drop_client_lem slot core)) ∙ e)
    where
      gone : none ≡ some d → slot.fd ≡ some d
      gone f = cc

  dispatch_frame-KeepsFd :
      (slot : ClientSlot) (header : FrameHeader) (core : Core W)
      → KeepsFd slot (dispatch_frame capacity handle slot header core).0
  unfolding dispatch_frame
  dispatch_frame-KeepsFd slot header core =
      let (written, core') =
        handle slot.fd header (payload_of (as_span slot.rx_buffer) header) core in
      elim (Bool-cases written) [
        | inl e ↦ rw e (λ d f. f)
        | inr e ↦ rw e (drop_client-KeepsFd slot core')
      ]

  frame_loop-KeepsFd :
      (fuel : ℕ) (slot : ClientSlot) (core : Core W)
      → KeepsFd slot (frame_loop capacity handle fuel slot core).0
  unfolding frame_loop
  frame_loop-KeepsFd zero slot core = λ d f. f
  frame_loop-KeepsFd (suc fuel) slot core =
      elim (Bool-cases (ltb slot.rx_buffer.size header_size)) [
        | inl e ↦ rw e (λ d f. f)
        | inr e ↦ rw e (elim (Result-cases (decode_header (as_span slot.rx_buffer))) [
          | inr (x, f) ↦ rw f (drop_client-KeepsFd slot core)
          | inl (header, f) ↦
              rw f (elim (Bool-cases (ltb (capacity - header_size) header.payload_len)) [
                | inl big ↦ rw big (drop_client-KeepsFd slot core)
                | inr small ↦
                    rw small
                      (elim (Bool-cases
                        (ltb slot.rx_buffer.size (header_size + header.payload_len))) [
                          | inl part ↦ rw part (λ d g. g)
                          | inr whole ↦ rw whole (λ d g.
                              dispatch_frame-KeepsFd slot header core d
                                (frame_loop-KeepsFd fuel _ _ d g))
                        ])
              ])
        ])
      ]

  receive-KeepsFd :
      (answer : ReadAnswer) (slot : ClientSlot) (core : Core W)
      → KeepsFd slot (receive capacity handle answer slot core).0.0
  unfolding receive process_client_frames
  receive-KeepsFd nothing slot core = drop_client-KeepsFd slot core
  receive-KeepsFd (got b bs) slot core =
      let (rx, all_in) = push_chunk capacity slot.rx_buffer (b ∷ bs) in
      let filled = record slot { rx_buffer = rx } in
      elim (Bool-cases all_in) [
        | inl e ↦ rw e (frame_loop-KeepsFd (suc rx.size) filled core)
        | inr e ↦ rw e (drop_client-KeepsFd filled core)
      ]

  close_if-KeepsFd :
      (hangup : Bool) (slot : ClientSlot) (core : Core W)
      → KeepsFd slot (close_if capacity handle hangup (slot, core)).0
  unfolding close_if
  close_if-KeepsFd hangup slot core = elim (Bool-cases (not (is_free slot) && hangup)) [
    | inl e ↦ rw e (drop_client-KeepsFd slot core)
    | inr e ↦ rw e (λ d f. f)
  ]

  pub serve_slot-KeepsFd :
      (readable hangup : Bool) (answer : ReadAnswer) (slot : ClientSlot) (core : Core W)
      → KeepsFd slot (serve_slot capacity handle readable hangup answer slot core).0
  unfolding serve_slot
  serve_slot-KeepsFd false hangup answer slot core = close_if-KeepsFd hangup slot core
  serve_slot-KeepsFd true hangup answer slot core =
      let (after, goes_on) = receive capacity handle answer slot core in
      elim (Bool-cases goes_on) [
        | inl e ↦ rw e (λ d f.
            receive-KeepsFd answer slot core d (close_if-KeepsFd hangup after.0 after.1 d f))
        | inr e ↦ rw e (receive-KeepsFd answer slot core)
      ]

-- accept4(2) gives a descriptor that no client has.
abbrev pub IsFresh : Ready → List ClientSlot → Type 0
IsFresh (listener (some fd) add_ok) clients = (j : ℕ) → (slot_at clients j).fd ≢ some fd
IsFresh _ clients = Unit {0}

module _ {W : Type 0} where
  signals-IsDistinct :
      (sigs : List Signal) (s : Server W)
      → IsDistinct s.clients
      → IsDistinct (handle_signals sigs s).clients
  unfolding handle_signals record_event stop
  signals-IsDistinct [] s h = h
  signals-IsDistinct (sigchld ∷ sigs) s h = signals-IsDistinct sigs _ h
  signals-IsDistinct (sigterm ∷ sigs) s h = signals-IsDistinct sigs (stop s) h
  signals-IsDistinct (sigint ∷ sigs) s h = signals-IsDistinct sigs (stop s) h
  signals-IsDistinct (other_signal ∷ sigs) s h = signals-IsDistinct sigs s h

  handle_accept-IsDistinct :
      (fd : ℕ) (add_ok : Bool) (s : Server W)
      → ((j : ℕ) → (slot_at s.clients j).fd ≢ some fd)
      → IsDistinct s.clients
      → IsDistinct (handle_accept (some fd) add_ok s).clients
  unfolding handle_accept reset
  handle_accept-IsDistinct fd add_ok s fresh h = elim (Option-cases (find_free_slot s.clients)) [
    | inl e ↦ rw (handle_accept, e) h
    | inr (i, e) ↦
        rw (handle_accept, e)
          (elim (Bool-cases add_ok) [
            | inl t ↦
                rw t (set-IsDistinct s.clients i _ h (λ j d f g. absurd (fresh j (g ∙ sym f))))
            | inr t ↦ rw t (set-IsDistinct s.clients i _ h (λ j d f g. absurd (nothing_else d f)))
          ])
  ]
    where
      nothing_else : (d : ℕ) → ¬ (none ≡ some d)
      nothing_else d f = cc

module _ {W : Type 0} (capacity : ℕ) (handle : Handler W) (stop_bridge : W → W) where
  handle_client_event-IsDistinct :
      (fd : ℕ) (readable hangup : Bool) (answer : ReadAnswer) (s : Server W)
      → IsDistinct s.clients
      → IsDistinct (handle_client_event capacity handle fd readable hangup answer s).clients
  unfolding handle_client_event
  handle_client_event-IsDistinct fd readable hangup answer s h =
      elim (Option-cases (find_slot_by_fd fd s.clients)) [
        | inl e ↦ rw (handle_client_event, e) h
        | inr (i, e) ↦
            rw (handle_client_event, e)
              (set-IsDistinct s.clients i _ h (λ j d f g. h j i d g (
                serve_slot-KeepsFd capacity handle readable hangup answer (slot_at s.clients i)
                  s.core d f)))
      ]

  pub handle_event-IsDistinct :
      (e : Ready) (s : Server W)
      → IsFresh e s.clients
      → IsDistinct s.clients
      → IsDistinct (handle_event capacity handle stop_bridge e s).clients
  unfolding handle_event handle_accept
  handle_event-IsDistinct (signals sigs) s fresh h = signals-IsDistinct sigs s h
  handle_event-IsDistinct (listener none add_ok) s fresh h = h
  handle_event-IsDistinct (listener (some fd) add_ok) s fresh h =
      handle_accept-IsDistinct fd add_ok s fresh h
  handle_event-IsDistinct (client fd readable hangup answer) s fresh h =
      handle_client_event-IsDistinct fd readable hangup answer s h
