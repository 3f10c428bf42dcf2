-- ===== src/Server/Events/Change.antt =====
-- What an event of the loop of include/axiom/server.hpp does to the client table, slot by slot.
use axiom_vm.Prelude.{
  ℕ, ◌<◌, ◌≡◌, ◌≢◌, refl, ap, sym, ◌∙◌, subst, ◌⊎◌, inl, inr, Bool, true, false, Option, none, some,
  List, [], ◌∷◌, arith, if◌then◌else◌, ◌==◌, length, set, get_or-set_self, get_or-set_ne,
  Bool-cases, Option-cases, ==→eq,
}
use axiom_vm.Server.Os.{record_event}
use axiom_vm.Server.Slot.{ClientSlot, Core, reset, drop_client, drop_client_lem}
use axiom_vm.Server.Frames.{Handler}
use axiom_vm.Server.Clients.{
  Server, ReadAnswer, got, nothing, push_chunk, receive, close_if, serve_slot, is_free, has_fd,
  find_slot, find_free_slot, find_slot_by_fd, slot_at, no_slot, handle_accept, handle_client_event,
}
use axiom_vm.Server.Clients.Find.{
  find_slot-some, find_slot-none, is_free-none, has_fd-some, has_fd-not,
}
use axiom_vm.Server.Events.{
  Signal, sigchld, sigterm, sigint, other_signal, handle_signals, Ready, signals, listener, client,
  handle_event, stop,
}
use axiom_vm.Server.Events.Distinct.{
  IsDistinct, IsFresh, serve_slot-KeepsFd, handle_event-IsDistinct,
}

-- A client that was served: given up, or still there, which a hangup and the end of what it sends rule
-- out.
abbrev pub IsServed : ℕ → Bool → Bool → ReadAnswer → ClientSlot → Type 0
IsServed fd readable hangup answer after =
    (after.fd ≡ none)
    ⊎ ((after.fd ≡ some fd) × (hangup ≡ false) × (readable ≡ true → answer ≢ nothing))

-- A slot before and after an event.
abbrev pub Change : Ready → ClientSlot → ClientSlot → Type 0
Change (signals sigs) before after = after ≡ before
Change (listener none add_ok) before after = after ≡ before
Change (listener (some fd) add_ok) before after =
    (after ≡ before) ⊎ ((before.fd ≡ none) × (after.fd ≡ (if add_ok then some fd else none)))
Change (client fd readable hangup answer) before after =
    ((before.fd ≢ some fd) × (after ≡ before))
    ⊎ ((before.fd ≡ some fd) × IsServed fd readable hangup answer after)

-- An accepted descriptor that can be watched has a place, unless every place is taken.
abbrev pub IsPlaced : Ready → List ClientSlot → List ClientSlot → Type 0
IsPlaced (listener (some fd) true) clients clients' =
    ((i : ℕ) → i < length clients → (slot_at clients i).fd ≢ none)
    ⊎ ((i : ℕ) × ((slot_at clients' i).fd ≡ some fd))
IsPlaced _ clients clients' = Unit {0}

module _ {W : Type 0} (capacity : ℕ) (handle : Handler W) where
  drop_client-free : (slot : ClientSlot) (core : Core W) → (drop_client slot core).0.fd ≡ none
  drop_client-free slot core = ap (λ (r : ClientSlot × Core W). r.0.fd) (drop_client_lem slot core)

  close_if-free :
      (slot : ClientSlot) (core : Core W) → (close_if capacity handle true (slot, core)).0.fd ≡ none
  unfolding close_if
  close_if-free slot core = elim (Bool-cases (is_free slot)) [
    | inl e ↦ rw (close_if, e) (is_free-none slot e)
    | inr e ↦ rw (close_if, e) (drop_client-free slot core)
  ]

  receive-free :
      (answer : ReadAnswer) (slot : ClientSlot) (core : Core W)
      → (receive capacity handle answer slot core).1 ≡ false
      → (receive capacity handle answer slot core).0.0.fd ≡ none
  unfolding receive
  receive-free nothing slot core h = drop_client-free slot core
  receive-free (got b bs) slot core h =
      let (rx, all_in) = push_chunk capacity slot.rx_buffer (b ∷ bs) in
      elim (Bool-cases all_in) [
        | inl e ↦ let h' = rw (receive, e) at h in cc (h')
        | inr e ↦ rw (receive, e) (drop_client-free (record slot { rx_buffer = rx }) core)
      ]

  hung_up-free :
      (readable : Bool) (answer : ReadAnswer) (slot : ClientSlot) (core : Core W)
      → (serve_slot capacity handle readable true answer slot core).0.fd ≡ none
  unfolding serve_slot
  hung_up-free false answer slot core = close_if-free slot core
  hung_up-free true answer slot core =
      elim (Bool-cases (receive capacity handle answer slot core).1) [
        | inl e ↦
            let after = (receive capacity handle answer slot core).0 in
            rw (serve_slot, e) (close_if-free after.0 after.1)
        | inr e ↦ rw (serve_slot, e) (receive-free answer slot core e)
      ]

  ended-free :
      (hangup : Bool) (slot : ClientSlot) (core : Core W)
      → (serve_slot capacity handle true hangup nothing slot core).0.fd ≡ none
  unfolding serve_slot receive
  ended-free hangup slot core = drop_client-free slot core

  serve_slot-IsServed :
      (fd : ℕ) (readable hangup : Bool) (answer : ReadAnswer) (slot : ClientSlot) (core : Core W)
      → slot.fd ≡ some fd
      → IsServed fd readable hangup answer
          (serve_slot capacity handle readable hangup answer slot core).0
  serve_slot-IsServed fd readable hangup answer slot core e =
      let after = (serve_slot capacity handle readable hangup answer slot core).0 in
      elim (Option-cases after.fd) [
        | inl f ↦ inl f
        | inr (d, f) ↦
            let kept = serve_slot-KeepsFd capacity handle readable hangup answer slot core d f in
            let same : some d ≡ some fd = sym kept ∙ e in
            let open_to : (h : Bool) (r : Bool) (a : ReadAnswer)
                → hangup ≡ h
                → readable ≡ r
                → answer ≡ a
                → (serve_slot capacity handle r h a slot core).0.fd ≢ none =
              λ h r a eh er ea g. some_not_none (
                sym f
                ∙ ap (λ x. (serve_slot capacity handle readable x answer slot core).0.fd) eh
                ∙ ap (λ x. (serve_slot capacity handle x h answer slot core).0.fd) er
                ∙ ap (λ x. (serve_slot capacity handle r h x slot core).0.fd) ea
                ∙ g) in
            let stays : hangup ≡ false = elim (Bool-cases hangup) [
              | inl eh ↦ absurd (
                  open_to true readable answer eh refl refl
                    (hung_up-free readable answer slot core))
              | inr eh ↦ eh
            ] in
            inr (
              f ∙ same,
              stays,
              λ er ea. open_to hangup true nothing refl er ea (ended-free hangup slot core),
            )
      ]
    where
      some_not_none : {d : ℕ} → ¬ (some d ≡ none)
      some_not_none e = cc

  handle_client_event-Change :
      (fd : ℕ) (readable hangup : Bool) (answer : ReadAnswer) (s : Server W)
      → IsDistinct s.clients
      → (j : ℕ)
      → Change
          (client fd readable hangup answer)
          (slot_at s.clients j)
          (slot_at (handle_client_event capacity handle fd readable hangup answer s).clients j)
  unfolding handle_client_event find_slot_by_fd
  handle_client_event-Change fd readable hangup answer s distinct j =
      elim (Option-cases (find_slot (has_fd fd) s.clients)) [
        | inl e ↦
            rw (handle_client_event, e)
              (inl (
                has_fd-not fd (slot_at s.clients j)
                    (find_slot-none (has_fd fd) s.clients j e (inr refl)),
                refl,
              ))
        | inr (i, e) ↦
            let (has, inside) = find_slot-some (has_fd fd) s.clients i e in
            let found = has_fd-some fd (slot_at s.clients i) has in
            let served =
              (serve_slot capacity handle readable hangup answer (slot_at s.clients i) s.core).0 in
            rw (handle_client_event, e)
              (at_place i inside found served
                (serve_slot-IsServed fd readable hangup answer (slot_at s.clients i) s.core found))
      ]
    where
      at_place :
          (i : ℕ)
          → i < length s.clients
          → (slot_at s.clients i).fd ≡ some fd
          → (served : ClientSlot) → IsServed fd readable hangup answer served
          → Change
              (client fd readable hangup answer)
              (slot_at s.clients j)
              (slot_at (set s.clients i served) j)
      at_place i inside found served h = elim (Bool-cases (j == i)) [
        | inl e ↦
            let same = ==→eq j i e in
            subst
              (λ k.
                Change (client fd readable hangup answer) (slot_at s.clients k)
                  (slot_at (set s.clients i served) k))
              (sym same)
              (inr (
                found,
                subst (IsServed fd readable hangup answer)
                    (sym (get_or-set_self s.clients i served no_slot inside)) h,
              ))
        | inr e ↦
            let apart : j ≢ i = λ g. absurd (ground arith) in
            inl (
              λ g. apart (distinct j i fd g found),
              get_or-set_ne s.clients i j served no_slot (λ g. apart (sym g)),
            )
      ]

  handle_accept-Change :
      (fd : ℕ) (add_ok : Bool) (s : Server W) (j : ℕ)
      → Change
          (listener (some fd) add_ok)
          (slot_at s.clients j)
          (slot_at (handle_accept (some fd) add_ok s).clients j)
  unfolding handle_accept find_free_slot reset
  handle_accept-Change fd add_ok s j = elim (Option-cases (find_slot is_free s.clients)) [
    | inl e ↦ rw (handle_accept, e) (inl refl)
    | inr (i, e) ↦
        let (free, inside) = find_slot-some is_free s.clients i e in
        let unused = is_free-none (slot_at s.clients i) free in
        elim (Bool-cases add_ok) [
          | inl a ↦ rw (handle_accept, e, a) (at_place i inside unused _ (some fd) refl)
          | inr a ↦ rw (handle_accept, e, a) (at_place i inside unused _ none refl)
        ]
  ]
    where
      at_place :
          (i : ℕ)
          → i < length s.clients
          → (slot_at s.clients i).fd ≡ none
          → (slot : ClientSlot) (o : Option ℕ) → slot.fd ≡ o
          → (slot_at (set s.clients i slot) j ≡ slot_at s.clients j)
            ⊎ (((slot_at s.clients j).fd ≡ none) × ((slot_at (set s.clients i slot) j).fd ≡ o))
      at_place i inside unused slot o h = elim (Bool-cases (j == i)) [
        | inl e ↦
            let same = ==→eq j i e in
            subst
              (λ k.
                (slot_at (set s.clients i slot) k ≡ slot_at s.clients k)
                ⊎ (((slot_at s.clients k).fd ≡ none) × ((slot_at (set s.clients i slot) k).fd ≡ o)))
              (sym same)
              (inr (
                unused,
                ap (λ (c : ClientSlot). c.fd) (get_or-set_self s.clients i slot no_slot inside) ∙ h,
              ))
        | inr e ↦
            let apart : i ≢ j = λ g. absurd (ground arith) in
            inl (get_or-set_ne s.clients i j slot no_slot apart)
      ]

  handle_accept-IsPlaced :
      (fd : ℕ) (s : Server W)
      → IsPlaced (listener (some fd) true) s.clients (handle_accept (some fd) true s).clients
  unfolding handle_accept find_free_slot
  handle_accept-IsPlaced fd s = elim (Option-cases (find_slot is_free s.clients)) [
    | inl e ↦ inl (λ i inside taken.
        taken_free (slot_at s.clients i) taken (find_slot-none is_free s.clients i e (inl inside)))
    | inr (i, e) ↦
        let (free, inside) = find_slot-some is_free s.clients i e in
        rw (handle_accept, e)
          (inr (i, ap (λ (c : ClientSlot). c.fd) (get_or-set_self s.clients i _ no_slot inside)))
  ]
    where
      taken_free : (slot : ClientSlot) → slot.fd ≡ none → ¬ (is_free slot ≡ false)
      taken_free slot e f = let g = rw e at f in cc (g)

  signals-Change : (sigs : List Signal) (s : Server W) → (handle_signals sigs s).clients ≡ s.clients
  unfolding handle_signals record_event stop
  signals-Change [] s = refl
  signals-Change (sigchld ∷ sigs) s = signals-Change sigs _
  signals-Change (sigterm ∷ sigs) s = signals-Change sigs (stop s)
  signals-Change (sigint ∷ sigs) s = signals-Change sigs (stop s)
  signals-Change (other_signal ∷ sigs) s = signals-Change sigs s

  -- In a table where no descriptor stands twice, with an accepted descriptor that no client has: after
  -- any event no descriptor stands twice, and every slot is as it was, buffer included, but for these.
  -- An accepted descriptor goes into a slot that was free, or leaves it free if it cannot be watched;
  -- it has a slot afterwards if it can be watched and a slot was free.
  -- The client of a client event is the one with its descriptor; it keeps the descriptor or is given
  -- up, and is given up if it hung up or nothing more comes from it.
  pub handle_event-Change :
      (stop_bridge : W → W) (e : Ready) (s : Server W)
      → IsFresh e s.clients
      → IsDistinct s.clients
      → IsDistinct (handle_event capacity handle stop_bridge e s).clients
        × IsPlaced e s.clients (handle_event capacity handle stop_bridge e s).clients
        × ((i : ℕ)
            → Change e
                (slot_at s.clients i)
                (slot_at (handle_event capacity handle stop_bridge e s).clients i))
  unfolding handle_event handle_accept
  handle_event-Change stop_bridge e s fresh distinct = (
    handle_event-IsDistinct capacity handle stop_bridge e s fresh distinct,
    placed e,
    λ i. at_event e i,
  )
    where
      placed :
          (e : Ready) → IsPlaced e s.clients (handle_event capacity handle stop_bridge e s).clients
      placed (signals sigs) = tt
      placed (listener none add_ok) = tt
      placed (listener (some fd) false) = tt
      placed (listener (some fd) true) = handle_accept-IsPlaced fd s
      placed (client fd readable hangup answer) = tt

      at_event :
          (e : Ready) (i : ℕ)
          → Change e
              (slot_at s.clients i)
              (slot_at (handle_event capacity handle stop_bridge e s).clients i)
      at_event (signals sigs) i = ap (λ cs. slot_at cs i) (signals-Change sigs s)
      at_event (listener none add_ok) i = refl
      at_event (listener (some fd) add_ok) i = handle_accept-Change fd add_ok s i
      at_event (client fd readable hangup answer) i =
          handle_client_event-Change fd readable hangup answer s distinct i
