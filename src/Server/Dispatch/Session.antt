-- ===== src/Server/Dispatch/Session.antt =====
-- From the bytes that a client sent to the bytes that it receives.
use axiom_vm.Prelude.{
  ℕ, ◌≤◌, ◌≡◌, ◌^◌, refl, ap, sym, ◌∙◌, subst, Bool, true, false, Option, none, some, List, [], ◌∷◌,
  ◌++◌, All, IsByte, append-nil, if◌then◌else◌, inl,
}
use axiom_vm.FixedVector.{as_span}
use axiom_vm.FixedVector.Refine.{IsValid}
use axiom_vm.Wire.Opcode.{Opcode, opcode_code}
use axiom_vm.Server.Os.{closed, removed, record_event}
use axiom_vm.Server.Slot.{ClientSlot, Core, hang_up}
use axiom_vm.Server.Services.{Services}
use axiom_vm.Server.Frames.{Handler, process_client_frames}
use axiom_vm.Server.Frames.Stream.{Frame, frame_bytes, stream}
use axiom_vm.Server.Frames.Round.{serve}
use axiom_vm.Server.Frames.Served.{
  Split, Ended, waiting, refused, lost, process_client_frames-Ended,
}
use axiom_vm.Server.Reply.Laws.{wire_of, sent_on-append, Sent, send_more}
use axiom_vm.Server.Dispatch.{dispatch}
use axiom_vm.Server.Dispatch.Contract.{Bounded}
use axiom_vm.Server.Dispatch.Responses.{
  response_to, response_frame, Unanswerable, Responded, silent, answered,
}
use axiom_vm.Server.Dispatch.Respond.{dispatch-Responded}

-- Responses in the order of their requests: all of them, or those up to a response that failed.
pub data Answers : Bool → List Frame → List Frame → Type 0 where
  all_served : Answers true [] []
  cut : {requests : List Frame} → Answers false requests []
  passed :
      {served : Bool} {requests responses : List Frame} (request : Frame)
      → Unanswerable request.header request.payload
      → Answers served requests responses
      → Answers served (request ∷ requests) responses
  matched :
      {served : Bool} {requests responses : List Frame} (request : Frame) (req op : Opcode)
      (payload : List ℕ)
      → request.header.opcode ≡ opcode_code req
      → response_to req ≡ some op
      → Answers served requests responses
      → Answers served (request ∷ requests) (response_frame request.header op payload ∷ responses)

module _ {W : Type 0} (d : ℕ) where
  -- What the client receives for a series of requests.
  pub record Received (requests : List Frame) (before : Core W) (out : Bool × Core W) : Type 0 where
    pub responses : List Frame
    pub in_order : Answers out.0 requests responses
    pub on_wire : Sent d (stream responses []) before out

  Received-nothing : (core : Core W) → Received [] core (true, core)
  Received-nothing core = record {
    responses = [];
    in_order = all_served;
    on_wire = record {
      taken = [];
      left = [];
      whole = refl;
      on_wire = sym (append-nil (wire_of d core));
      outcome = inl (refl, refl);
    };
  }

  -- A first request, and the others if no write failed.
  Received-more :
      (request : Frame) (requests : List Frame) (core : Core W) (first rest : Bool × Core W)
      → Responded d request.header request.payload core first
      → Received requests first.1 rest
      → Received (request ∷ requests) core (if first.0 then rest else (false, first.1))
  Received-more request requests core (true, core') rest (silent why fine same) r = record {
    responses = r.responses;
    in_order = passed request why r.in_order;
    on_wire = record {
      taken = r.on_wire.taken;
      left = r.on_wire.left;
      whole = r.on_wire.whole;
      on_wire = r.on_wire.on_wire ∙ ap (λ xs. xs ++ r.on_wire.taken) same;
      outcome = r.on_wire.outcome;
    };
  }
  Received-more request requests core (false, core') rest (silent why fine same) r = cc
  Received-more request requests core (true, core') rest (answered req op payload is_req is_op sent)
        r =
      record {
        responses = response_frame request.header op payload ∷ r.responses;
        in_order = matched request req op payload is_req is_op r.in_order;
        on_wire =
            send_more d (frame_bytes (response_frame request.header op payload))
              (stream r.responses []) core (true, core') rest sent r.on_wire;
      }
  Received-more request requests core (false, core') rest
        (answered req op payload is_req is_op sent) r =
      record {
        responses = response_frame request.header op payload ∷ [];
        in_order = matched request req op payload is_req is_op cut;
        on_wire =
            subst (λ bytes. Sent d bytes core (false, core'))
              (sym (append-nil (frame_bytes (response_frame request.header op payload)))) sent;
      }

module _ {W : Type 0} (buffer_capacity : ℕ) (services : Services W) (d : ℕ)
    (bounded : Bounded services d) where
  serve-Received :
      (requests : List Frame) (core : Core W)
      → Received d requests core (serve buffer_capacity (dispatch services) (some d) requests core)
  unfolding serve
  serve-Received [] core = Received-nothing d core
  serve-Received (request ∷ requests) core =
      let first = dispatch services (some d) request.header request.payload core in
      Received-more d request requests core first
        (serve buffer_capacity (dispatch services) (some d) requests first.1)
        (dispatch-Responded services d request.header request.payload core bounded)
        (serve-Received requests first.1)

module _ {W : Type 0} (buffer_capacity : ℕ) (handle : Handler W) (d : ℕ) where
  hang_up-wire : (fd : Option ℕ) (core : Core W) → wire_of d (hang_up fd core) ≡ wire_of d core
  unfolding hang_up record_event
  hang_up-wire none core = refl
  hang_up-wire (some fd) core =
      sent_on-append d (core.os.trace ++ (removed fd ∷ [])) (closed fd ∷ [])
      ∙ append-nil _
      ∙ sent_on-append d core.os.trace (removed fd ∷ [])
      ∙ append-nil (wire_of d core)

  -- The end of a run of the loop sends nothing.
  Ended-wire :
      (slot : ClientSlot) (bytes : List ℕ) (s : Split buffer_capacity bytes)
      (served : Bool × Core W) (out : ClientSlot × Core W)
      → Ended buffer_capacity handle slot bytes s served out
      → wire_of d out.1 ≡ wire_of d served.1
  Ended-wire slot bytes s _ out (waiting {core} p w) = ap (wire_of d) w.core_eq
  Ended-wire slot bytes s _ out (refused {core} m g) =
      ap (wire_of d) g.core_eq ∙ hang_up-wire slot.fd core
  Ended-wire slot bytes s _ out (lost {core} g) =
      ap (wire_of d) g.core_eq ∙ hang_up-wire slot.fd core

module _ {W : Type 0} (d : ℕ) where
  Received-as :
      (requests : List Frame) (before core : Core W) (served : Bool × Core W)
      → wire_of d core ≡ wire_of d served.1
      → Received d requests before served
      → Received d requests before (served.0, core)
  Received-as requests before core served same r = record {
    responses = r.responses;
    in_order = r.in_order;
    on_wire = record {
      taken = r.on_wire.taken;
      left = r.on_wire.left;
      whole = r.on_wire.whole;
      on_wire = same ∙ r.on_wire.on_wire;
      outcome = r.on_wire.outcome;
    };
  }

module _ {W : Type 0} (buffer_capacity : ℕ) (services : Services W) where
  -- What a connected client with a valid receive buffer of bytes, of a capacity from 12 to 2 ^ 62,
  -- gets back from `process_client_frames`, with services that keep to their buffers and a kernel
  -- that gives no descriptor twice: the buffer is a series of complete frames and a rest, and its
  -- descriptor receives the response frames of those requests in their order, each request that has
  -- a response and a complete payload answered once with its own id. If no write fails the
  -- responses are on the wire in full and the client stays with the rest in its buffer, or is given
  -- up because the rest is malformed; else a proper part of the responses up to the failed one is,
  -- and the client is given up.
  pub process_client_frames-Received :
      (d : ℕ) (slot : ClientSlot) (core : Core W)
      → Bounded services d
      → 12 ≤ buffer_capacity
      → buffer_capacity ≤ 2 ^ 62
      → slot.fd ≡ some d
      → IsValid buffer_capacity slot.rx_buffer
      → All IsByte (as_span slot.rx_buffer)
      → let out = process_client_frames buffer_capacity (dispatch services) slot core in
        (s : Split buffer_capacity (as_span slot.rx_buffer)) × (served : Bool × Core W) × Received d
          s.frames core
          (served.0, out.1)
        × Ended buffer_capacity (dispatch services) slot (as_span slot.rx_buffer) s served out
  process_client_frames-Received d slot core bounded wide narrow fd valid bytes =
      let (s, e) =
        process_client_frames-Ended buffer_capacity (dispatch services) slot core wide narrow valid
          bytes in
      let served = serve buffer_capacity (dispatch services) slot.fd s.frames core in
      let out = process_client_frames buffer_capacity (dispatch services) slot core in
      (
        s,
        served,
        Received-as d s.frames core out.1 served
            (Ended-wire buffer_capacity (dispatch services) d slot (as_span slot.rx_buffer) s served
              out e)
            (subst
              (λ o.
                Received d s.frames core
                  (serve buffer_capacity (dispatch services) o s.frames core))
              (sym fd) (serve-Received buffer_capacity services d bounded s.frames core)),
        e,
      )
