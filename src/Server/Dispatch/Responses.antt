-- ===== src/Server/Dispatch/Responses.antt =====
-- What a client receives for a request: nothing, or one frame.
use axiom_vm.Prelude.{
  ℕ, ◌+◌, ◌≤◌, ◌<◌, ◌≡◌, ◌≢◌, refl, ap, sym, subst, ◌∙◌, Bool, true, Option, none, some, List, [],
  ◌++◌, arith, length, replicate, if◌then◌else◌, ltb, ◌==◌, ==→eq, ==→ne, ltb→lt, Bool-cases, inl,
  inr, length-append,
}
use axiom_vm.Common.{Result, ok, err}
use axiom_vm.Wire.Struct.{Struct, to_memory, length-to_memory}
use axiom_vm.Wire.Headers
use axiom_vm.Wire.Headers.{FrameHeader}
use axiom_vm.Wire.Codec
use axiom_vm.Wire.Codec.{sizeof}
use axiom_vm.Wire.Opcode.{Opcode, opcode_code}
use axiom_vm.Server.Slot.{Core}
use axiom_vm.Server.Frames.Stream.{Frame, frame_bytes, header_bytes}
use axiom_vm.Server.Reply.{response_header, reply, with_request}
use axiom_vm.Server.Reply.Laws.{wire_of, concat, Sent, reply-Sent}

-- The opcode of the response to a request.
abbrev pub response_to : Opcode → Option Opcode
response_to Opcode.ping = some Opcode.pong
response_to Opcode.exec = some Opcode.exec_output
response_to Opcode.ast_symbols = some Opcode.ast_symbols_response
response_to Opcode.ast_slice = some Opcode.ast_slice_response
response_to Opcode.ast_patch = some Opcode.ast_patch_response
response_to Opcode.cdp_action = some Opcode.cdp_action_response
response_to Opcode.read_file = some Opcode.read_file_response
response_to Opcode.write_file = some Opcode.write_file_response
response_to _ = none

-- A frame with the request's id that states the length of its own payload.
abbrev pub response_frame : FrameHeader → Opcode → List ℕ → Frame
response_frame request op payload = record {
  header = response_header request op (length payload);
  payload = payload;
}

-- The length that the header of a request states for its payload, if the header decodes.
abbrev pub stated {ℓ} : {R : Type ℓ} → Result R → (R → ℕ) → Option ℕ
stated (err _) needed = none
stated (ok req) needed = some (needed req)

abbrev pub stated_len : Opcode → List ℕ → Option ℕ
stated_len Opcode.exec payload =
    stated (Codec.decode_exec_request payload)
      (λ req. sizeof Headers.exec_request_struct + req.cmd_len + req.cwd_len)
stated_len Opcode.ast_symbols payload =
    stated (Codec.decode_ast_symbols_request payload)
      (λ req. sizeof Headers.ast_symbols_request_struct + req.path_len)
stated_len Opcode.ast_slice payload =
    stated (Codec.decode_ast_slice_request payload)
      (λ req. sizeof Headers.ast_slice_request_struct + req.path_len + req.symbol_len)
stated_len Opcode.ast_patch payload = stated (Codec.decode_ast_patch_request payload) (λ req.
    sizeof Headers.ast_patch_request_struct + req.path_len + req.symbol_len + req.replacement_len)
stated_len Opcode.cdp_action payload =
    stated (Codec.decode_cdp_request payload)
      (λ req. sizeof Headers.cdp_request_struct + req.payload1_len + req.payload2_len)
stated_len Opcode.read_file payload =
    stated (Codec.decode_read_file_request payload)
      (λ req. sizeof Headers.read_file_request_struct + req.path_len)
stated_len Opcode.write_file payload =
    stated (Codec.decode_write_file_request payload)
      (λ req. sizeof Headers.write_file_request_struct + req.path_len + req.content_len)
stated_len _ payload = some 0

-- Why a request may stay without a response.
pub data Unanswerable (request : FrameHeader) (payload : List ℕ) : Type 0 where
  -- its opcode is of no request that has a response
  no_request :
      ((req op : Opcode) → response_to req ≡ some op → request.opcode ≢ opcode_code req)
      → Unanswerable request payload
  -- its payload does not decode, or is shorter than it states
  incomplete :
      (req : Opcode)
      → request.opcode ≡ opcode_code req
      → ((n : ℕ) → stated_len req payload ≡ some n → request.payload_len < n)
      → Unanswerable request payload

module _ {W : Type 0} (d : ℕ) (request : FrameHeader) (request_payload : List ℕ)
    (before : Core W) where
  -- What the client's descriptor takes between two states.
  pub data Responded : Bool × Core W → Type 0 where
    silent :
        {out : Bool × Core W}
        → Unanswerable request request_payload
        → out.0 ≡ true
        → wire_of d out.1 ≡ wire_of d before
        → Responded out
    answered :
        {out : Bool × Core W} (req op : Opcode) (payload : List ℕ)
        → request.opcode ≡ opcode_code req
        → response_to req ≡ some op
        → Sent d (frame_bytes (response_frame request op payload)) before out
        → Responded out

  -- The test of one opcode.
  pub by_opcode :
      (req : Opcode) (x y : Bool × Core W)
      → (request.opcode ≡ opcode_code req → Responded x)
      → (request.opcode ≢ opcode_code req → Responded y)
      → Responded (if request.opcode == opcode_code req then x else y)
  by_opcode req x y p q = elim (Bool-cases (request.opcode == opcode_code req)) [
    | inl e ↦ rw e (p (==→eq _ _ e))
    | inr e ↦ rw e (q (==→ne _ _ e))
  ]

  pub with_request-Responded :
      {R : Type 0} (code : Opcode) (header_len : ℕ) (decoded : Result R) (core : Core W)
      (needed : R → ℕ) (answer : R → Bool × Core W)
      → request.opcode ≡ opcode_code code
      → stated_len code request_payload ≡ stated decoded needed
      → ((req : R) → header_len ≤ needed req)
      → wire_of d core ≡ wire_of d before
      → ((req : R) → Responded (answer req))
      → Responded (with_request request.payload_len header_len decoded core needed answer)
  unfolding with_request
  with_request-Responded code header_len (err x) core needed answer is_code states le same h =
      elim (Bool-cases (ltb request.payload_len header_len)) [
        | inl e ↦ rw e (silent undecodable refl same)
        | inr e ↦ rw e (silent undecodable refl same)
      ]
    where
      some_none : (n : ℕ) → ¬ (none ≡ some n)
      some_none n e = cc

      undecodable : Unanswerable request request_payload
      undecodable = incomplete code is_code (λ n f. absurd (some_none n (sym states ∙ f)))
  with_request-Responded code header_len (ok req) core needed answer is_code states le same h =
      elim (Bool-cases (ltb request.payload_len header_len)) [
        | inl e ↦ rw e (silent (short (omega (arith, ltb→lt _ _ e, le req))) refl same)
        | inr e ↦ elim (Bool-cases (ltb request.payload_len (needed req))) [
          | inl f ↦ rw (e, f) (silent (short (ltb→lt _ _ f)) refl same)
          | inr f ↦ rw (e, f) (h req)
        ]
      ]
    where
      some_inj : (m n : ℕ) → some m ≡ some n → m ≡ n
      some_inj m n e = cc

      short : request.payload_len < needed req → Unanswerable request request_payload
      short lt = incomplete code is_code (λ n f.
          subst (λ k. request.payload_len < k) (some_inj (needed req) n (sym states ∙ f)) lt)

  -- A reply whose header states the length of its parts.
  pub reply-Responded :
      (req op : Opcode) (total n : ℕ) (encode_resp : List ℕ → Result (ℕ × List ℕ)) (back : List ℕ)
      (body : List (List ℕ)) (core : Core W)
      → request.opcode ≡ opcode_code req
      → response_to req ≡ some op
      → encode_resp (replicate n 0) ≡ ok (n, back)
      → total ≡ length (back ++ concat body)
      → wire_of d core ≡ wire_of d before
      → Responded (reply (some d) (response_header request op total) n encode_resp body core)
  reply-Responded req op total n encode_resp back body core is_req is_op e stated same =
      answered req op payload is_req is_op (record {
        taken = s.taken;
        left = s.left;
        whole = s.whole ∙ ap (λ k. header_bytes (response_header request op k) ++ payload) stated;
        on_wire = s.on_wire ∙ ap (λ xs. xs ++ s.taken) same;
        outcome = s.outcome;
      })
    where
      payload : List ℕ
      payload = back ++ concat body

      s :
          Sent d
            (header_bytes (response_header request op total) ++ payload)
            core
            (reply (some d) (response_header request op total) n encode_resp body core)
      s = reply-Sent d (response_header request op total) n encode_resp back body core e

  -- A reply that begins with an encoded struct.
  pub struct_reply-Responded :
      {S : Type 0} (st : Struct S) (h : S) (req op : Opcode) (total : ℕ)
      (encode_resp : List ℕ → Result (ℕ × List ℕ)) (body : List (List ℕ)) (core : Core W)
      → request.opcode ≡ opcode_code req
      → response_to req ≡ some op
      → encode_resp (replicate (sizeof st) 0)
        ≡ ok (sizeof st, to_memory st.widths (st.fields h) ++ [])
      → total ≡ sizeof st + length (concat body)
      → wire_of d core ≡ wire_of d before
      → Responded
          (reply (some d) (response_header request op total) (sizeof st) encode_resp body core)
  struct_reply-Responded st h req op total encode_resp body core is_req is_op e stated same =
      let back = to_memory st.widths (st.fields h) in
      reply-Responded req op total (sizeof st) encode_resp (back ++ []) body core is_req is_op e
        (omega (
          arith,
          stated,
          length-append (back ++ []) (concat body),
          length-append back [],
          length-to_memory st.widths (st.fields h),
        ))
        same
