-- ===== src/Wire/Payload.antt =====
-- The codecs of the payload headers of include/axiom/wire.hpp, taken together.
use axiom_vm.Prelude.{
  ℕ, ◌≤◌, ◌<◌, ◌≡◌, ap, List, length, All, IsByte, le→ltb, ltb, ltb→lt, ltb→le, ◌⊎◌, inl, inr,
  Bool-cases, if◌then◌else◌,
}
use axiom_vm.Common.{Result, ok, err, buffer_underflow, buffer_overflow}
use axiom_vm.Wire.Struct.{Struct, load, store}
use axiom_vm.Wire.Headers
use axiom_vm.Wire.Codec
use axiom_vm.Wire.Codec.{sizeof}
use axiom_vm.Wire.RoundTrip.{
  Fits, Written, length-store, drop-store, load-store, store-load, load-Fits,
}

-- The payload headers that have both an encoder and a decoder.
pub data Kind : Type 0 where
  exec_request : Kind
  exec_response : Kind
  ast_symbols_request : Kind
  ast_symbols_response : Kind
  ast_slice_request : Kind
  ast_slice_response : Kind
  ast_patch_request : Kind
  ast_patch_response : Kind
  cdp_request : Kind
  cdp_response : Kind

abbrev pub Header : Kind → Type 0
Header exec_request = Headers.ExecRequestHeader
Header exec_response = Headers.ExecResponseHeader
Header ast_symbols_request = Headers.AstSymbolsRequestHeader
Header ast_symbols_response = Headers.AstSymbolsResponseHeader
Header ast_slice_request = Headers.AstSliceRequestHeader
Header ast_slice_response = Headers.AstSliceResponseHeader
Header ast_patch_request = Headers.AstPatchRequestHeader
Header ast_patch_response = Headers.AstPatchResponseHeader
Header cdp_request = Headers.CdpActionRequestHeader
Header cdp_response = Headers.CdpActionResponseHeader

abbrev pub struct_of : (k : Kind) → Struct (Header k)
struct_of exec_request = Headers.exec_request_struct
struct_of exec_response = Headers.exec_response_struct
struct_of ast_symbols_request = Headers.ast_symbols_request_struct
struct_of ast_symbols_response = Headers.ast_symbols_response_struct
struct_of ast_slice_request = Headers.ast_slice_request_struct
struct_of ast_slice_response = Headers.ast_slice_response_struct
struct_of ast_patch_request = Headers.ast_patch_request_struct
struct_of ast_patch_response = Headers.ast_patch_response_struct
struct_of cdp_request = Headers.cdp_request_struct
struct_of cdp_response = Headers.cdp_response_struct

abbrev pub encode : (k : Kind) → Header k → List ℕ → Result (ℕ × List ℕ)
encode exec_request = Codec.encode_exec_request
encode exec_response = Codec.encode_exec_response
encode ast_symbols_request = Codec.encode_ast_symbols_request
encode ast_symbols_response = Codec.encode_ast_symbols_response
encode ast_slice_request = Codec.encode_ast_slice_request
encode ast_slice_response = Codec.encode_ast_slice_response
encode ast_patch_request = Codec.encode_ast_patch_request
encode ast_patch_response = Codec.encode_ast_patch_response
encode cdp_request = Codec.encode_cdp_request
encode cdp_response = Codec.encode_cdp_response

abbrev pub decode : (k : Kind) → List ℕ → Result (Header k)
decode exec_request = Codec.decode_exec_request
decode exec_response = Codec.decode_exec_response
decode ast_symbols_request = Codec.decode_ast_symbols_request
decode ast_symbols_response = Codec.decode_ast_symbols_response
decode ast_slice_request = Codec.decode_ast_slice_request
decode ast_slice_response = Codec.decode_ast_slice_response
decode ast_patch_request = Codec.decode_ast_patch_request
decode ast_patch_response = Codec.decode_ast_patch_response
decode cdp_request = Codec.decode_cdp_request
decode cdp_response = Codec.decode_cdp_response

-- A decoder and an encoder with their size guards, over any struct.
module _ {S : Type 0} (s : Struct S) where
  abbrev guarded_encode : S → List ℕ → Result (ℕ × List ℕ)
  guarded_encode h buf =
      if ltb (length buf) (sizeof s) then err buffer_overflow else ok (sizeof s, store s h buf)

  abbrev guarded_decode : List ℕ → Result S
  guarded_decode buf = if ltb (length buf) (sizeof s) then err buffer_underflow else ok (load s buf)

  written :
      (h : S) (buf : List ℕ)
      → Fits s h
      → sizeof s ≤ length buf
      → Written s guarded_encode guarded_decode h buf
  written h buf fits le = (
    store s h buf,
    rw (le→ltb (length buf) (sizeof s) le),
    rw (le→ltb (length (store s h buf)) (sizeof s) (rw (length-store s h buf le) le))
        (ap ok (load-store s h buf fits)),
    length-store s h buf le,
    drop-store s h buf,
  )

  abbrev pub Restored : (S → List ℕ → Result (ℕ × List ℕ)) → (List ℕ → Result S) → List ℕ → Type 0
  Restored encode decode buf =
      ((h : S) × (decode buf ≡ ok h) × Fits s h × (encode h buf ≡ ok (sizeof s, buf)))
      ⊎ ((length buf < sizeof s)
          × (decode buf ≡ err buffer_underflow)
          × ((h : S) → encode h buf ≡ err buffer_overflow))

  restored : (buf : List ℕ) → All IsByte buf → Restored guarded_encode guarded_decode buf
  restored buf bytes = elim (Bool-cases (ltb (length buf) (sizeof s))) [
    | inl e ↦ inr (ltb→lt _ _ e, rw e, λ h. rw e)
    | inr e ↦
        let le : sizeof s ≤ length buf = ltb→le _ _ e in
        inl (
          load s buf,
          rw e,
          load-Fits s buf bytes le,
          rw e (ap (λ b. ok (sizeof s, b)) (store-load s buf bytes le)),
        )
  ]

-- Every payload header that has an encoder and a decoder, if its fields fit, is written into any
-- buffer that has room for it, is read back unchanged, and the rest of the buffer is left as it
-- was.
pub encode-decode :
    (k : Kind) (h : Header k) (buf : List ℕ)
    → Fits (struct_of k) h
    → sizeof (struct_of k) ≤ length buf
    → Written (struct_of k) (encode k) (decode k) h buf
unfolding Codec.encode_exec_request Codec.decode_exec_request Codec.encode_exec_response
    Codec.decode_exec_response Codec.encode_ast_symbols_request Codec.decode_ast_symbols_request
    Codec.encode_ast_symbols_response Codec.decode_ast_symbols_response
    Codec.encode_ast_slice_request Codec.decode_ast_slice_request Codec.encode_ast_slice_response
    Codec.decode_ast_slice_response Codec.encode_ast_patch_request Codec.decode_ast_patch_request
    Codec.encode_ast_patch_response Codec.decode_ast_patch_response Codec.encode_cdp_request
    Codec.decode_cdp_request Codec.encode_cdp_response Codec.decode_cdp_response
encode-decode exec_request h buf fits le = written Headers.exec_request_struct h buf fits le
encode-decode exec_response h buf fits le = written Headers.exec_response_struct h buf fits le
encode-decode ast_symbols_request h buf fits le =
    written Headers.ast_symbols_request_struct h buf fits le
encode-decode ast_symbols_response h buf fits le =
    written Headers.ast_symbols_response_struct h buf fits le
encode-decode ast_slice_request h buf fits le =
    written Headers.ast_slice_request_struct h buf fits le
encode-decode ast_slice_response h buf fits le =
    written Headers.ast_slice_response_struct h buf fits le
encode-decode ast_patch_request h buf fits le =
    written Headers.ast_patch_request_struct h buf fits le
encode-decode ast_patch_response h buf fits le =
    written Headers.ast_patch_response_struct h buf fits le
encode-decode cdp_request h buf fits le = written Headers.cdp_request_struct h buf fits le
encode-decode cdp_response h buf fits le = written Headers.cdp_response_struct h buf fits le

-- On a buffer of bytes a payload decoder fails only if the buffer is too short for its header, and
-- then so does the encoder; what a decoder accepts fits into the fields, and encoding it over the
-- buffer changes no byte.
pub decode-encode :
    (k : Kind) (buf : List ℕ) → All IsByte buf → Restored (struct_of k) (encode k) (decode k) buf
unfolding Codec.encode_exec_request Codec.decode_exec_request Codec.encode_exec_response
    Codec.decode_exec_response Codec.encode_ast_symbols_request Codec.decode_ast_symbols_request
    Codec.encode_ast_symbols_response Codec.decode_ast_symbols_response
    Codec.encode_ast_slice_request Codec.decode_ast_slice_request Codec.encode_ast_slice_response
    Codec.decode_ast_slice_response Codec.encode_ast_patch_request Codec.decode_ast_patch_request
    Codec.encode_ast_patch_response Codec.decode_ast_patch_response Codec.encode_cdp_request
    Codec.decode_cdp_request Codec.encode_cdp_response Codec.decode_cdp_response
decode-encode exec_request buf bytes = restored Headers.exec_request_struct buf bytes
decode-encode exec_response buf bytes = restored Headers.exec_response_struct buf bytes
decode-encode ast_symbols_request buf bytes = restored Headers.ast_symbols_request_struct buf bytes
decode-encode ast_symbols_response buf bytes =
    restored Headers.ast_symbols_response_struct buf bytes
decode-encode ast_slice_request buf bytes = restored Headers.ast_slice_request_struct buf bytes
decode-encode ast_slice_response buf bytes = restored Headers.ast_slice_response_struct buf bytes
decode-encode ast_patch_request buf bytes = restored Headers.ast_patch_request_struct buf bytes
decode-encode ast_patch_response buf bytes = restored Headers.ast_patch_response_struct buf bytes
decode-encode cdp_request buf bytes = restored Headers.cdp_request_struct buf bytes
decode-encode cdp_response buf bytes = restored Headers.cdp_response_struct buf bytes
