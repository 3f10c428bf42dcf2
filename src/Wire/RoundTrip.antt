-- ===== src/Wire/RoundTrip.antt =====
-- Encoding and decoding of the headers of include/axiom/wire.hpp are inverse to one another.
use axiom_vm.Prelude.{
  ℕ, ◌≤◌, ◌<◌, ◌≡◌, ap, sym, subst, ◌∙◌, List, ◌++◌, length, drop, All, IsByte, if◌then◌else◌, ltb,
  ◌==◌, arith, length-append, length-drop, drop-length-append, le→ltb, eq→==, Bool-cases, inl, inr,
  ==→eq, ltb→lt, ltb→le, take-append-drop, ◌≢◌,
}
use mathlib.Core.Bool.{false≢true}
use axiom_vm.Common.{Result, ok, err, buffer_underflow, protocol_error}
use axiom_vm.Wire.Struct.{
  Struct, InRange, to_memory, from_memory, load, store, length-to_memory, from_memory-to_memory,
  to_memory-from_memory, from_memory-InRange,
}
use axiom_vm.Wire.Headers.{FrameHeader, frame_header_struct}
use axiom_vm.Wire.Codec.{wire_magic, sizeof, decode_header, encode_header}

-- Every field of the header fits into its width.
abbrev pub Fits : {S : Type 0} → Struct S → S → Type 0
Fits s h = InRange s.widths (s.fields h)

module _ {S : Type 0} (s : Struct S) where
  pub length-store :
      (h : S) (buf : List ℕ) → sizeof s ≤ length buf → length (store s h buf) ≡ length buf
  unfolding store
  length-store h buf le = omega (
    arith,
    length-append (to_memory s.widths (s.fields h)) (drop (sizeof s) buf),
    length-to_memory s.widths (s.fields h),
    length-drop (sizeof s) buf,
  )

  pub drop-store : (h : S) (buf : List ℕ) → drop (sizeof s) (store s h buf) ≡ drop (sizeof s) buf
  unfolding store
  drop-store h buf =
      drop-length-append (sizeof s) (to_memory s.widths (s.fields h)) (drop (sizeof s) buf)
        (length-to_memory s.widths (s.fields h))

  pub load-store : (h : S) (buf : List ℕ) → Fits s h → load s (store s h buf) ≡ h
  unfolding load store
  load-store h buf fits =
      ap s.make (from_memory-to_memory s.widths (s.fields h) (drop (sizeof s) buf) fits)
      ∙ s.make-fields h

  pub store-load :
      (buf : List ℕ) → All IsByte buf → sizeof s ≤ length buf → store s (load s buf) buf ≡ buf
  unfolding load store
  store-load buf bytes le =
      ap (λ vs. to_memory s.widths vs ++ drop (sizeof s) buf)
        (s.fields-make (from_memory s.widths buf))
      ∙ ap (λ front. front ++ drop (sizeof s) buf) (to_memory-from_memory s.widths buf bytes le)
      ∙ take-append-drop (sizeof s) buf

  pub load-Fits : (buf : List ℕ) → All IsByte buf → sizeof s ≤ length buf → Fits s (load s buf)
  unfolding load
  load-Fits buf bytes le =
      subst (InRange s.widths) (sym (s.fields-make (from_memory s.widths buf)))
        (from_memory-InRange s.widths buf bytes le)

  -- What any pair of an encoder and a decoder with the two size guards does.
  abbrev pub Written :
      (S → List ℕ → Result (ℕ × List ℕ)) → (List ℕ → Result S) → S → List ℕ → Type 0
  Written encode decode h buf =
      (buf' : List ℕ) × (encode h buf ≡ ok (sizeof s, buf'))
      × (decode buf' ≡ ok h)
      × (length buf' ≡ length buf)
      × (drop (sizeof s) buf' ≡ drop (sizeof s) buf)

-- A frame header that carries the magic and whose fields fit is written into any buffer of at
-- least 12 bytes, is read back unchanged, and the rest of the buffer is left as it was.
pub encode_header-decode_header :
    (h : FrameHeader) (buf : List ℕ)
    → Fits frame_header_struct h
    → h.magic ≡ wire_magic
    → 12 ≤ length buf
    → Written frame_header_struct encode_header decode_header h buf
unfolding encode_header decode_header
encode_header-decode_header h buf fits magic le = (
  store frame_header_struct h buf,
  rw (le→ltb (length buf) 12 le),
  rw (
    le→ltb (length (store frame_header_struct h buf)) 12
        (omega (arith, length-store frame_header_struct h buf le)),
    load-store frame_header_struct h buf fits,
    eq→== h.magic wire_magic magic,
  ),
  length-store frame_header_struct h buf le,
  drop-store frame_header_struct h buf,
)

-- The three outcomes of `decode_header` on a buffer of bytes.
pub data Decoded (buf : List ℕ) : Result FrameHeader → Type 0 where
  short : length buf < 12 → Decoded buf (err buffer_underflow)
  foreign :
      12 ≤ length buf
      → (load frame_header_struct buf).magic ≢ wire_magic
      → Decoded buf (err protocol_error)
  whole :
      (h : FrameHeader)
      → 12 ≤ length buf
      → h.magic ≡ wire_magic
      → Fits frame_header_struct h
      → encode_header h buf ≡ ok (12, buf)
      → Decoded buf (ok h)

-- On a buffer of bytes `decode_header` fails exactly if the buffer is shorter than a header or its
-- first two bytes are not the magic, each with its own error; the header that it gives otherwise
-- fits into its fields, and encoding it over the buffer changes no byte.
pub decode_header-Decoded : (buf : List ℕ) → All IsByte buf → Decoded buf (decode_header buf)
unfolding decode_header encode_header
decode_header-Decoded buf bytes = elim (Bool-cases (ltb (length buf) 12)) [
  | inl e ↦ rw e (short (ltb→lt _ _ e))
  | inr e ↦ rw e (elim (Bool-cases ((load frame_header_struct buf).magic == wire_magic)) [
    | inl m ↦ rw m (
        whole (load frame_header_struct buf) (ltb→le _ _ e) (==→eq _ _ m)
          (load-Fits frame_header_struct buf bytes (ltb→le _ _ e))
          (rw e (ap (λ b. ok (12, b)) (store-load frame_header_struct buf bytes (ltb→le _ _ e)))))
    | inr m ↦ rw m (foreign (ltb→le _ _ e) (λ eq. absurd (false≢true (sym m ∙ eq→== _ _ eq))))
  ])
]

-- A header at the front of a longer buffer is read whatever follows it.
pub decode_header-front :
    (h : FrameHeader) (rest : List ℕ)
    → Fits frame_header_struct h
    → h.magic ≡ wire_magic
    → decode_header (to_memory frame_header_struct.widths (frame_header_struct.fields h) ++ rest)
      ≡ ok h
unfolding decode_header load
decode_header-front h rest fits magic = rw (le→ltb (length (front ++ rest)) 12 enough) (
    ap (λ k. if k.magic == wire_magic then ok k else err protocol_error) loaded
    ∙ rw (eq→== h.magic wire_magic magic))
  where
    front : List ℕ
    front = to_memory frame_header_struct.widths (frame_header_struct.fields h)

    enough : 12 ≤ length (front ++ rest)
    enough = omega (
      arith,
      length-append front rest,
      length-to_memory frame_header_struct.widths (frame_header_struct.fields h),
    )

    loaded : frame_header_struct.make (from_memory frame_header_struct.widths (front ++ rest)) ≡ h
    loaded =
        ap frame_header_struct.make (
          from_memory-to_memory frame_header_struct.widths (frame_header_struct.fields h) rest fits)

-- What a successful decoding says of the bytes.
pub record Front (buf : List ℕ) (h : FrameHeader) : Type 0 where
  pub enough : 12 ≤ length buf
  pub magic : h.magic ≡ wire_magic
  pub fits : Fits frame_header_struct h
  pub bytes :
      to_memory frame_header_struct.widths (frame_header_struct.fields h) ++ drop 12 buf ≡ buf

written_back :
    (h : FrameHeader) (buf : List ℕ)
    → 12 ≤ length buf
    → encode_header h buf ≡ ok (12, buf)
    → store frame_header_struct h buf ≡ buf
unfolding encode_header
written_back h buf le e = ground arith

Decoded-Front :
    (buf : List ℕ) (r : Result FrameHeader) (h : FrameHeader)
    → Decoded buf r
    → r ≡ ok h
    → Front buf h
unfolding store
Decoded-Front buf _ h (short _) e = cc
Decoded-Front buf _ h (foreign _ _) e = cc
Decoded-Front buf _ h (whole h' le magic fits same) e =
    let same_header : h' ≡ h = cc in
    subst (Front buf) same_header
      (record { enough = le; magic = magic; fits = fits; bytes = written_back h' buf le same })

pub decode_header-Front :
    (buf : List ℕ) (h : FrameHeader) → All IsByte buf → decode_header buf ≡ ok h → Front buf h
decode_header-Front buf h bytes e = Decoded-Front buf _ h (decode_header-Decoded buf bytes) e
