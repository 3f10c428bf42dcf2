-- ===== src/Server/Reply/Laws.antt =====
-- What a response puts on the wire.
use axiom_vm.Prelude.{
  ℕ, ◌<◌, ◌≡◌, refl, ap, ap₂, sym, ◌∙◌, subst, inl, inr, Bool, true, false, some, List, [], ◌∷◌,
  ◌++◌, arith, length, if◌then◌else◌, ◌==◌, replicate, length-append, append_assoc, append-nil,
  Bool-cases, eq→==,
}
use axiom_vm.Common.{Result, ok}
use axiom_vm.Wire.Struct.{store}
use axiom_vm.Wire.Headers.{FrameHeader}
use axiom_vm.Wire.Codec.{encode_header, header_size}
use axiom_vm.Server.Os.{
  Event, sent, closed, added, removed, reaped, Outcome, write_all, write_loop, write_loop-prefix,
  record_event,
}
use axiom_vm.Server.Slot.{Core}
use axiom_vm.Server.Frames.Stream.{header_bytes}
use axiom_vm.Server.Reply.{send, send_parts, reply}

-- All that went out on a descriptor.
abbrev pub sent_on : ℕ → List Event → List ℕ
sent_on d [] = []
sent_on d (sent fd bytes ∷ es) = if fd == d then bytes ++ sent_on d es else sent_on d es
sent_on d (_ ∷ es) = sent_on d es

pub sent_on-append :
    (d : ℕ) (es fs : List Event) → sent_on d (es ++ fs) ≡ sent_on d es ++ sent_on d fs
sent_on-append d [] fs = refl
sent_on-append d (sent fd bytes ∷ es) fs = elim (Bool-cases (fd == d)) [
  | inl e ↦ rw (e, sent_on-append d es fs) (sym (append_assoc bytes (sent_on d es) (sent_on d fs)))
  | inr e ↦ rw e (sent_on-append d es fs)
]
sent_on-append d (closed fd ∷ es) fs = sent_on-append d es fs
sent_on-append d (added fd ∷ es) fs = sent_on-append d es fs
sent_on-append d (removed fd ∷ es) fs = sent_on-append d es fs
sent_on-append d (reaped ∷ es) fs = sent_on-append d es fs

abbrev pub wire_of : {W : Type 0} → ℕ → Core W → List ℕ
wire_of d core = sent_on d core.os.trace

abbrev pub concat : List (List ℕ) → List ℕ
concat [] = []
concat (p ∷ ps) = p ++ concat ps

module _ {W : Type 0} (d : ℕ) where
  -- Between two states the descriptor took a first part of some bytes: all of them exactly if the
  -- writes succeeded.
  pub record Sent (bytes : List ℕ) (before : Core W) (out : Bool × Core W) : Type 0 where
    pub taken : List ℕ
    pub left : List ℕ
    pub whole : taken ++ left ≡ bytes
    pub on_wire : wire_of d out.1 ≡ wire_of d before ++ taken
    pub outcome : Outcome out.0 left

  pub send-Sent : (bytes : List ℕ) (core : Core W) → Sent bytes core (send (some d) bytes core)
  unfolding send write_all record_event
  send-Sent bytes core =
      let out = (write_loop bytes core.os.answers).1 in
      let (left, whole, outcome) = write_loop-prefix core.os.answers bytes in
      record {
        taken = out;
        left = left;
        whole = whole;
        on_wire =
            sent_on-append d core.os.trace (sent d out ∷ [])
            ∙ ap (◌++◌ (wire_of d core)) (rw (eq→== d d refl) (append-nil out));
        outcome = outcome;
      }

  -- Bytes, and more bytes behind them if the first went out.
  pub send_more :
      (bytes more : List ℕ) (core : Core W) (first second : Bool × Core W)
      → Sent bytes core first
      → Sent more first.1 second
      → Sent (bytes ++ more) core (if first.0 then second else (false, first.1))
  send_more bytes more core (true, core') second s rest = record {
    taken = s.taken ++ rest.taken;
    left = rest.left;
    whole = append_assoc s.taken rest.taken rest.left ∙ ap₂ ◌++◌ (all_taken s.outcome) rest.whole;
    on_wire =
        rest.on_wire
        ∙ ap (λ xs. xs ++ rest.taken) s.on_wire
        ∙ append_assoc (wire_of d core) s.taken rest.taken;
    outcome = rest.outcome;
  }
    where
      all_taken : Outcome true s.left → s.taken ≡ bytes
      all_taken (inl (done, none_left)) =
          sym (append-nil s.taken) ∙ ap (◌++◌ s.taken) (sym none_left) ∙ s.whole
      all_taken (inr (wrong, some_left)) = cc
  send_more bytes more core (false, core') second s rest = record {
    taken = s.taken;
    left = s.left ++ more;
    whole = sym (append_assoc s.taken s.left (more)) ∙ ap (λ xs. xs ++ more) s.whole;
    on_wire = s.on_wire;
    outcome = inr (refl, some_left s.outcome);
  }
    where
      some_left : Outcome false s.left → 0 < length (s.left ++ more)
      some_left (inl (wrong, none_left)) = cc
      some_left (inr (done, some_more)) = omega (arith, length-append s.left (more))

  pub send_parts-Sent :
      (parts : List (List ℕ)) (core : Core W)
      → Sent (concat parts) core (send_parts (some d) parts core)
  unfolding send_parts
  send_parts-Sent [] core = record {
    taken = [];
    left = [];
    whole = refl;
    on_wire = sym (append-nil (wire_of d core));
    outcome = inl (refl, refl);
  }
  send_parts-Sent ([] ∷ parts) core = send_parts-Sent parts core
  send_parts-Sent ((b ∷ bs) ∷ parts) core =
      let first = send (some d) (b ∷ bs) core in
      send_more (b ∷ bs) (concat parts) core first (send_parts (some d) parts first.1)
        (send-Sent (b ∷ bs) core) (send_parts-Sent parts first.1)

pub encode_header-zeros :
    (h : FrameHeader) → encode_header h (replicate header_size 0) ≡ ok (header_size, header_bytes h)
unfolding encode_header store
encode_header-zeros h = ap (λ bs. ok (header_size, bs)) (append-nil (header_bytes h))

module _ {W : Type 0} (d : ℕ) where
  -- A response goes out as its frame header and its payload in a row.
  pub reply-Sent :
      (h : FrameHeader) (n : ℕ) (encode_resp : List ℕ → Result (ℕ × List ℕ)) (back : List ℕ)
      (body : List (List ℕ)) (core : Core W)
      → encode_resp (replicate n 0) ≡ ok (n, back)
      → Sent d
          (header_bytes h ++ (back ++ concat body))
          core
          (reply (some d) h n encode_resp body core)
  unfolding reply
  reply-Sent h n encode_resp back body core e =
      rw (reply, encode_header-zeros h, e)
        (subst
          (λ bytes. Sent d bytes core (send_parts (some d) ((header_bytes h ++ back) ∷ body) core))
          (append_assoc (header_bytes h) back (concat body))
          (send_parts-Sent d ((header_bytes h ++ back) ∷ body) core))
