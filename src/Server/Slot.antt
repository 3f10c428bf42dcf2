-- ===== src/Server/Slot.antt =====
-- `ClientSlot`, the shared part of the server's state, and how a client is given up.
use axiom_vm.Prelude.{ℕ, Bool, Option, none, some, ◌≡◌, refl}
use axiom_vm.FixedVector.{FixedVector, clear}
use axiom_vm.Server.Os.{Os, closed, removed, record_event}

-- `fd` is `none` where the source has -1.
pub record ClientSlot : Type 0 where
  pub fd : Option ℕ
  pub rx_buffer : FixedVector ℕ

-- What the handlers share: `running_`, the kernel, and the components behind the handlers.
pub record Core (W : Type 0) : Type 0 where
  pub running : Bool
  pub os : Os
  pub world : W

module _ {W : Type 0} where
  -- `ClientSlot::reset`
  unfoldable pub reset : ClientSlot → Core W → ClientSlot × Core W
  unfolding record_event clear
  reset slot core = elim slot.fd [
    | none ↦ (record slot { rx_buffer = clear slot.rx_buffer }, core)
    | some fd ↦ (
      record { fd = none; rx_buffer = clear slot.rx_buffer },
      record core { os = record_event (closed fd) core.os },
    )
  ]

  -- `reactor_.remove(slot->fd)`; with the descriptor -1 the kernel refuses it.
  unfoldable pub deregister : ClientSlot → Core W → Core W
  unfolding record_event
  deregister slot core = elim slot.fd [
    | none ↦ core
    | some fd ↦ record core { os = record_event (removed fd) core.os }
  ]

  -- `(void)reactor_.remove(slot->fd); slot->reset();`
  unfoldable pub drop_client : ClientSlot → Core W → ClientSlot × Core W
  unfolding reset deregister
  drop_client slot core = reset slot (deregister slot core)

  -- What is left of a client that is given up: its descriptor is deregistered, then closed.
  unfoldable pub hang_up : Option ℕ → Core W → Core W
  unfolding record_event
  hang_up none core = core
  hang_up (some fd) core = record core {
    os = record_event (closed fd) (record_event (removed fd) core.os);
  }

  pub drop_client_lem :
      (slot : ClientSlot) (core : Core W)
      → drop_client slot core
        ≡ (record { fd = none; rx_buffer = clear slot.rx_buffer }, hang_up slot.fd core)
  unfolding drop_client hang_up
  drop_client_lem slot core = at_fd slot.fd
    where
      at_fd :
          (fd : Option ℕ)
          → drop_client (record { fd = fd; rx_buffer = slot.rx_buffer }) core
            ≡ (record { fd = none; rx_buffer = clear slot.rx_buffer }, hang_up fd core)
      at_fd none = refl
      at_fd (some fd) = refl
