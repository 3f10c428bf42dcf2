-- ===== src/Ast/Serving.antt =====
-- The AST engine of include/axiom/ast.hpp behind the handlers of include/axiom/server.hpp.
use axiom_vm.Prelude.{
  ℕ, ◌^◌, ◌≤◌, ◌<◌, ◌≡◌, ◌≢◌, subst, ap, Bool, true, false, List, [], ◌∷◌, ◌++◌, arith, length, All,
  inl, inr, length-append,
}
use axiom_vm.Common.{Result, ok, err, Result-cases}
use axiom_vm.Ast.{Lang, SymbolInfo, detect_language}
use axiom_vm.Ast.Tree.{TreeSitter, IsTree}
use axiom_vm.Ast.Engine.{extract_symbols, format_symbols, slice_symbol, patch_symbol}
use axiom_vm.Ast.Declared.{IsDeclared, extract_symbols-Extracted}
use axiom_vm.Ast.Format.{HasLines, symbol_lines, format_symbols_fits}
use axiom_vm.Ast.Patch.{slice_symbol-Replaceable}
use axiom_vm.Server.Services.{Services, SymbolSlice, Symbols, not_extracted, not_formatted, table}
use axiom_vm.Server.Handlers.Files.{file_buffer_capacity}
use axiom_vm.Server.Dispatch.Contract.{AstFits}

-- `lang != ast::Lang::Unknown`
unfoldable pub is_known : Lang → Bool
is_known Lang.unknown = false
is_known _ = true

-- `extract_symbols`, then `format_symbols` into `ast_work_buf_`, as `handle_ast_symbols` calls them
unfoldable pub symbols_after : Result (List SymbolInfo) → Symbols
symbols_after (err _) = not_extracted
symbols_after (ok symbols) = elim (format_symbols file_buffer_capacity symbols) [
  | err _ ↦ not_formatted (length symbols)
  | ok text ↦ table (length symbols) text
]

module _ (ts : TreeSitter) (parser : Bool) where
  unfoldable pub with_engine : {W : Type 0} → Services W → Services W
  unfolding is_known symbols_after
  with_engine services = record services {
    known_language = λ path. is_known (detect_language path);
    symbols =
        λ path source. symbols_after (extract_symbols ts parser source (detect_language path));
    slice = λ path source symbol. slice_symbol ts parser source (detect_language path) symbol;
    patch = λ path source symbol replacement.
        patch_symbol ts parser file_buffer_capacity source (detect_language path) symbol
          replacement;
  }

  module _ (tree : IsTree ts) where
    declared_lines :
        (root : ts.TsNode) (symbols : List SymbolInfo)
        → All (IsDeclared ts root) symbols
        → All HasLines symbols × All (λ s. length s.name ≤ 95) symbols
    declared_lines root [] h = (tt, tt)
    declared_lines root (s ∷ ss) (d, ds) =
        let (lines, names) = declared_lines root ss ds in
        let start : s.start_line < 2 ^ 32 = omega (arith, d.start_line_of) in
        let stop : s.end_line < 2 ^ 32 = omega (arith, d.end_line_of) in
        (((start, stop), lines), (d.name_fits, names))

    -- Whatever table `extract_symbols` gives, `format_symbols` puts all of its lines into a buffer
    -- of the size that the server has, and takes at most 35072 bytes of it.
    pub format_symbols-extract_symbols :
        (source : List ℕ) (lang : Lang) (symbols : List SymbolInfo)
        → extract_symbols ts parser source lang ≡ ok symbols
        → (format_symbols file_buffer_capacity symbols ≡ ok (symbol_lines symbols))
          × (length (symbol_lines symbols) ≤ 35072)
    format_symbols-extract_symbols source lang symbols h =
        let x = extract_symbols-Extracted ts tree parser source lang symbols h in
        let (lines, names) = declared_lines x.root symbols x.declared in
        format_symbols_fits file_buffer_capacity symbols names lines x.at_most (omega arith)

    symbols_after-table :
        (source : List ℕ) (lang : Lang) (count : ℕ) (text : List ℕ)
        → symbols_after (extract_symbols ts parser source lang) ≡ table count text
        → length text ≤ 262144
    unfolding symbols_after
    symbols_after-table source lang count text h =
        elim (Result-cases (extract_symbols ts parser source lang)) [
          | inr (x, e) ↦ let h' = rw (symbols_after, e) at h in cc (h')
          | inl (symbols, e) ↦
              let (f, small) = format_symbols-extract_symbols source lang symbols e in
              let h' = rw (symbols_after, e, f) at h in
              let same : symbol_lines symbols ≡ text = ground arith in
              subst (λ t. length t ≤ 262144) same (omega arith)
        ]

    symbols_after-ne_not_formatted :
        (source : List ℕ) (lang : Lang) (n : ℕ)
        → symbols_after (extract_symbols ts parser source lang) ≢ not_formatted n
    unfolding symbols_after
    symbols_after-ne_not_formatted source lang n h =
        elim (Result-cases (extract_symbols ts parser source lang)) [
          | inr (x, e) ↦ let h' = rw (symbols_after, e) at h in cc (h')
          | inl (symbols, e) ↦
              let (f, small) = format_symbols-extract_symbols source lang symbols e in
              let h' = rw (symbols_after, e, f) at h in cc (h')
        ]

    length-slice :
        (source : List ℕ) (lang : Lang) (symbol : List ℕ) (s : SymbolSlice)
        → length source ≤ 262144
        → slice_symbol ts parser source lang symbol ≡ ok s
        → length s.content ≤ 262144
    length-slice source lang symbol s small h =
        let r = slice_symbol-Replaceable ts parser source lang symbol s tree (omega arith) h in
        omega (
          arith,
          ap length r.parts,
          length-append r.before (s.content ++ r.behind),
          length-append s.content r.behind,
        )

    -- The AST engine over any parser that gives trees meets the part of the contract that the
    -- handlers rely on: tables and slices fit the buffers. The handlers that get it never meet the
    -- status of a table that could not be formatted.
    pub with_engine-AstFits :
        {W : Type 0} (services : Services W)
        → AstFits (with_engine services)
          × ((path source : List ℕ) (n : ℕ)
              → (with_engine services).symbols path source ≢ not_formatted n)
    unfolding with_engine
    with_engine-AstFits services = (
      record {
        symbols_fit = λ path source count text h.
            symbols_after-table source (detect_language path) count text h;
        slice_fits = λ path source symbol s small h.
            length-slice source (detect_language path) symbol s small h;
      },
      λ path source n h. symbols_after-ne_not_formatted source (detect_language path) n h,
    )
