-- ===== src/Server/Events/Shutdown.antt =====
-- How the event loop of the server ends.
use axiom_vm.Prelude.{
  ℕ, ◌≡◌, refl, ap, sym, ◌∙◌, Option, none, some, List, [], ◌∷◌, ◌++◌, All, append_assoc,
  append-nil, length, suc,
}
use axiom_vm.FixedVector.{clear}
use axiom_vm.Server.Os.{Event, closed, removed, record_event}
use axiom_vm.Server.Slot.{ClientSlot, Core, drop_client}
use axiom_vm.Server.Frames.{Handler}
use axiom_vm.Server.Clients.{Server}
use axiom_vm.Server.Events.{close_all, cleanup}

-- The end of a client's connection, as the kernel sees it.
abbrev pub farewell : ClientSlot → List Event
farewell slot = elim slot.fd [ none ↦ [] | some fd ↦ removed fd ∷ closed fd ∷ [] ]

abbrev pub farewells : List ClientSlot → List Event
farewells [] = []
farewells (slot ∷ slots) = farewell slot ++ farewells slots

abbrev pub IsFree : ClientSlot → Type 0
IsFree slot = slot.fd ≡ none

module _ {W : Type 0} where
  -- What a shutdown does to the clients.
  pub record Closed (clients : List ClientSlot) (core : Core W) (out : List ClientSlot × Core W)
      : Type 0 where
    pub all_free : All IsFree out.0
    pub same_places : length out.0 ≡ length clients
    pub trace : out.1.os.trace ≡ core.os.trace ++ farewells clients
    pub running : out.1.running ≡ core.running

  close_all-world :
      (clients : List ClientSlot) (core : Core W) → (close_all clients core).1.world ≡ core.world
  unfolding close_all drop_client record_event
  close_all-world [] core = refl
  close_all-world (slot ∷ slots) core = at_fd (λ c. close_all-world slots c) slot.fd
    where
      at_fd :
          ((c : Core W) → (close_all slots c).1.world ≡ c.world)
          → (fd : Option ℕ)
          → (close_all (record { fd = fd; rx_buffer = slot.rx_buffer } ∷ slots) core).1.world
            ≡ core.world
      at_fd ih none = ih core
      at_fd ih (some fd) =
          ih (drop_client (record { fd = some fd; rx_buffer = slot.rx_buffer }) core).1

  close_all-Closed :
      (clients : List ClientSlot) (core : Core W) → Closed clients core (close_all clients core)
  unfolding close_all drop_client record_event clear
  close_all-Closed [] core = record {
    all_free = tt;
    same_places = refl;
    trace = sym (append-nil _);
    running = refl;
  }
  close_all-Closed (slot ∷ slots) core = at_fd (λ c. close_all-Closed slots c) slot.fd
    where
      at_fd :
          ((c : Core W) → Closed slots c (close_all slots c))
          → (fd : Option ℕ)
          → let clients = record { fd = fd; rx_buffer = slot.rx_buffer } ∷ slots in
            Closed clients core (close_all clients core)
      at_fd ih none =
          let rest = ih core in
          record {
            all_free = (refl, rest.all_free);
            same_places = ap suc rest.same_places;
            trace = rest.trace;
            running = rest.running;
          }
      at_fd ih (some fd) =
          let rest = ih (drop_client slot' core).1 in
          record {
            all_free = (refl, rest.all_free);
            same_places = ap suc rest.same_places;
            trace =
                rest.trace
                ∙ append_assoc (core.os.trace ++ (removed fd ∷ [])) (closed fd ∷ [])
                    (farewells slots)
                ∙ append_assoc core.os.trace (removed fd ∷ []) _;
            running = rest.running;
          }
        where
          slot' : ClientSlot
          slot' = record { fd = some fd; rx_buffer = slot.rx_buffer }

module _ {W : Type 0} (buffer_capacity : ℕ) (handle : Handler W) (stop_bridge : W → W) where
  -- `cleanup` frees every slot, deregisters and closes the descriptor of each client that is still
  -- connected, in the order of the table and once each, makes no other call of its own, and leaves
  -- the flag and the number of slots as they were. What the services keep is changed by the stop of
  -- the browser bridge and by nothing else.
  pub cleanup_lem :
      (s : Server W)
      → Closed s.clients s.core (
        (cleanup buffer_capacity handle stop_bridge s).clients,
        (cleanup buffer_capacity handle stop_bridge s).core,
      )
        × ((cleanup buffer_capacity handle stop_bridge s).core.world ≡ stop_bridge s.core.world)
  unfolding cleanup
  cleanup_lem s =
      let c = close_all-Closed s.clients s.core in
      (
        record {
          all_free = c.all_free;
          same_places = c.same_places;
          trace = c.trace;
          running = c.running;
        },
        ap stop_bridge (close_all-world s.clients s.core),
      )
