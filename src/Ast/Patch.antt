-- ===== src/Ast/Patch.antt =====
-- `slice_symbol` and `patch_symbol` of include/axiom/ast.hpp: the slice that is shown is the part of
-- the source that a patch replaces.
use axiom_vm.Prelude.{
  ℕ, ◌+◌, ◌-◌, ◌%◌, ◌^◌, ◌≤◌, ◌<◌, ◌≡◌, ap, sym, ◌∙◌, subst, Bool, Option, some, List, [], ◌∷◌,
  ◌++◌, arith, length, take, drop, All, Option-cases, inl, inr, length-append, length-take,
  length-drop, take-append-drop, drop-drop, take-all, lt→ltb, le→ltb,
}
use axiom_vm.Common.{Result, ok, err, Result-cases, SystemError, buffer_overflow}
use axiom_vm.Ast.{Lang, SymbolInfo}
use axiom_vm.Ast.Tree.{TreeSitter, IsTree}
use axiom_vm.Ast.Find.{find_symbol}
use axiom_vm.Ast.Found.{Found, find_symbol-Found, IsFirst}
use axiom_vm.Ast.Engine.{
  extract_symbols, slice_matched, slice_symbol, patch_matched, patch_symbol, newlines,
}
use axiom_vm.Ast.Declared.{IsInside, extract_symbols-Extracted}
use axiom_vm.Server.Services.{SymbolSlice, PatchResult}

-- What patching the source around a slice gives: `patch size replacement`.
pub record Replaceable (source : List ℕ) (slice : SymbolSlice)
    (patch : ℕ → List ℕ → Result PatchResult) : Type 0 where
  pub before : List ℕ
  pub behind : List ℕ
  pub parts : source ≡ before ++ (slice.content ++ behind)
  pub replaced :
      (size : ℕ) (replacement : List ℕ)
      → length (before ++ (replacement ++ behind)) ≤ size
      → patch size replacement
        ≡ ok (record {
          old_start_line = slice.start_line;
          old_end_line = slice.end_line;
          new_end_line = (slice.start_line + newlines replacement) % 2 ^ 32;
          text = before ++ (replacement ++ behind);
        })
  pub overflows :
      (size : ℕ) (replacement : List ℕ)
      → size < length (before ++ (replacement ++ behind))
      → patch size replacement ≡ err buffer_overflow

split_range :
    (source : List ℕ) (start stop : ℕ)
    → start ≤ stop
    → source ≡ take start source ++ (take (stop - start) (drop start source) ++ drop stop source)
split_range source start stop h =
    let e : start + (stop - start) ≡ stop = omega arith in
    sym (take-append-drop start source)
    ∙ ap (λ r. take start source ++ r)
        (sym (take-append-drop (stop - start) (drop start source))
          ∙ ap (λ r. take (stop - start) (drop start source) ++ r)
              (drop-drop (stop - start) start source ∙ ap (λ k. drop k source) e))

-- The slice of a symbol with its range in the source.
abbrev slice_of : List ℕ → SymbolInfo → SymbolSlice
slice_of source s = record {
  start_line = s.start_line;
  end_line = s.end_line;
  content = take (s.end_byte - s.start_byte) (drop s.start_byte source);
}

module _ (source : List ℕ) (s : SymbolInfo) (ordered : s.start_byte ≤ s.end_byte)
    (inside : s.end_byte ≤ length source) where
  slice_matched_lem :
      length source < 2 ^ 32 → slice_matched source (some s) ≡ ok (slice_of source s)
  unfolding slice_matched
  slice_matched_lem small =
      let e : (s.end_byte + 2 ^ 32 - s.start_byte) % 2 ^ 32 ≡ s.end_byte - s.start_byte =
        omega arith in
      rw e

  length-replaced :
      (replacement : List ℕ)
      → length (take s.start_byte source ++ (replacement ++ drop s.end_byte source))
        ≡ s.start_byte + length replacement + (length source - s.end_byte)
  length-replaced replacement = omega (
    arith,
    length-append (take s.start_byte source) (replacement ++ drop s.end_byte source),
    length-append replacement (drop s.end_byte source),
    length-take s.start_byte source,
    length-drop s.end_byte source,
  )

  suffix_lem :
      length source < 2 ^ 32
      → (length source + 2 ^ 64 - s.end_byte) % 2 ^ 64 ≡ length source - s.end_byte
  suffix_lem small = omega arith

  matched_Replaceable :
      length source < 2 ^ 32
      → Replaceable source
          (slice_of source s)
          (λ size replacement. patch_matched size source replacement (some s))
  unfolding patch_matched
  matched_Replaceable small = record {
    before = take s.start_byte source;
    behind = drop s.end_byte source;
    parts = split_range source s.start_byte s.end_byte ordered;
    replaced = λ size replacement fits. rw (
      patch_matched,
      suffix_lem small,
      le→ltb size (s.start_byte + length replacement + (length source - s.end_byte))
          (omega (arith, length-replaced replacement)),
      take-all (length source - s.end_byte) (drop s.end_byte source)
          (omega (arith, length-drop s.end_byte source)),
    );
    overflows = λ size replacement long. rw (
      patch_matched,
      suffix_lem small,
      lt→ltb size (s.start_byte + length replacement + (length source - s.end_byte))
          (omega (arith, length-replaced replacement)),
    );
  }

IsFirst-All :
    {P : SymbolInfo → Type 0} (Q : SymbolInfo → Type 0) {symbols : List SymbolInfo} {s : SymbolInfo}
    → IsFirst P symbols s
    → All Q symbols
    → Q s
IsFirst-All Q {s = s} f all = at f.before (subst (All Q) f.parts all)
  where
    at : (before : List SymbolInfo) → All Q (before ++ (s ∷ f.behind)) → Q s
    at [] h = h.0
    at (b ∷ before) h = at before h.1

Found-All :
    (Q : SymbolInfo → Type 0) (symbols : List SymbolInfo) (query : List ℕ) (o : Option SymbolInfo)
    (s : SymbolInfo)
    → Found symbols query o
    → o ≡ some s
    → All Q symbols
    → Q s
Found-All Q symbols query _ s (Found.exact t f) e all = subst Q (ground arith) (IsFirst-All Q f all)
Found-All Q symbols query _ s (Found.dotted t _ f) e all =
    subst Q (ground arith) (IsFirst-All Q f all)
Found-All Q symbols query _ s (Found.scoped t _ _ f) e all =
    subst Q (ground arith) (IsFirst-All Q f all)
Found-All Q symbols query _ s (Found.missing _ _ _) e all = cc

module _ (ts : TreeSitter) (parser : Bool) (source : List ℕ) (lang : Lang) (name : List ℕ) where
  -- Where `slice_symbol` fails, `patch_symbol` fails with the same error.
  pub slice_symbol-err :
      (e : SystemError) (size : ℕ) (replacement : List ℕ)
      → slice_symbol ts parser source lang name ≡ err e
      → patch_symbol ts parser size source lang name replacement ≡ err e
  unfolding slice_symbol patch_symbol slice_matched patch_matched
  slice_symbol-err e size replacement h =
      elim (Result-cases (extract_symbols ts parser source lang)) [
        | inr (e', failed) ↦
            let h' = rw (slice_symbol, failed) at h in rw (patch_symbol, failed) (cc (h'))
        | inl (symbols, extracted) ↦ elim (Option-cases (find_symbol symbols name)) [
          | inl lost ↦
              let h' = rw (slice_symbol, extracted, lost) at h in
              rw (patch_symbol, extracted, lost) (cc (h'))
          | inr (s, found) ↦ let h' = rw (slice_symbol, extracted, found) at h in cc (h')
        ]
      ]

  -- Where `slice_symbol` shows a slice of a source below 4 GB, the source is the slice between two
  -- parts, and `patch_symbol` for the same name puts any replacement in its place: the new text is
  -- the replacement between the same parts, the old lines are the slice's, and the new end line
  -- counts the replacement's newlines. Exactly where the new text exceeds the destination it fails,
  -- with `buffer_overflow`.
  pub slice_symbol-Replaceable :
      (slice : SymbolSlice)
      → IsTree ts
      → length source < 2 ^ 32
      → slice_symbol ts parser source lang name ≡ ok slice
      → Replaceable source slice
          (λ size replacement. patch_symbol ts parser size source lang name replacement)
  unfolding slice_symbol patch_symbol
  slice_symbol-Replaceable slice tree small h =
      elim (Result-cases (extract_symbols ts parser source lang)) [
        | inr (e', failed) ↦ let h' = rw (slice_symbol, failed) at h in cc (h')
        | inl (symbols, extracted) ↦ elim (Option-cases (find_symbol symbols name)) [
          | inl lost ↦ let h' = rw (slice_symbol, extracted, lost, slice_matched) at h in cc (h')
          | inr (s, found) ↦
              let h' = rw (slice_symbol, extracted, found) at h in
              let x = extract_symbols-Extracted ts tree parser source lang symbols extracted in
              let (ordered, inside) =
                Found-All (IsInside ts tree source) symbols name _ s
                  (find_symbol-Found symbols name) found x.inside in
              let shown : slice_of source s ≡ slice =
                cc (h', slice_matched_lem source s ordered inside small) in
              rw (patch_symbol, extracted, found)
                (subst
                  (λ sl.
                    Replaceable source sl
                      (λ size replacement. patch_matched size source replacement (some s)))
                  shown (matched_Replaceable source s ordered inside small))
        ]
      ]

  -- Patching a symbol with the slice that is shown of it gives the source back, in any destination
  -- that holds the source.
  pub patch_symbol-slice_symbol :
      (slice : SymbolSlice) (size : ℕ)
      → IsTree ts
      → length source < 2 ^ 32
      → slice_symbol ts parser source lang name ≡ ok slice
      → length source ≤ size
      → (p : PatchResult) × (patch_symbol ts parser size source lang name slice.content ≡ ok p)
        × (p.text ≡ source)
  patch_symbol-slice_symbol slice size tree small h fits =
      let r = slice_symbol-Replaceable slice tree small h in
      (
        _,
        r.replaced size slice.content (subst (λ text. length text ≤ size) r.parts fits),
        sym r.parts,
      )
