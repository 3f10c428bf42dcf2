-- ===== src/Ast/Engine.antt =====
-- `AstEngine` of include/axiom/ast.hpp: extraction, slices, patches and the formatted table.
use axiom_vm.Prelude.{
  ℕ, suc, ◌+◌, ◌-◌, ◌%◌, ◌^◌, Bool, Option, none, some, List, [], ◌∷◌, ◌++◌, if◌then◌else◌, ltb,
  leb, ◌==◌, length, take, drop, codes,
}
use axiom_vm.Common.{
  Result, ok, err, ◌>>=◌, ast_error, invalid_argument, not_found, buffer_overflow,
}
use axiom_vm.Ast.{Lang, SymbolInfo, symbol_kind_to_string}
use axiom_vm.Ast.Tree.{
  TreeSitter, Grammar, tree_sitter_c, tree_sitter_cpp, tree_sitter_go, tree_sitter_rust_orchard,
  tree_sitter_python, tree_sitter_typescript,
}
use axiom_vm.Ast.Visit.{collect_symbols_recursive}
use axiom_vm.Ast.Find.{find_symbol}
use axiom_vm.Diff.{decimal}
use axiom_vm.Server.Services.{SymbolSlice, PatchResult}

unfoldable pub get_language : Lang → Option Grammar
get_language Lang.c = some tree_sitter_c
get_language Lang.cpp = some tree_sitter_cpp
get_language Lang.go = some tree_sitter_go
get_language Lang.rust = some tree_sitter_rust_orchard
get_language Lang.python = some tree_sitter_python
get_language Lang.type_script = some tree_sitter_typescript
get_language Lang.java_script = some tree_sitter_typescript
get_language Lang.unknown = none

-- the newlines of a replacement
unfoldable pub newlines : List ℕ → ℕ
newlines [] = 0
newlines (b ∷ bs) = let rest = newlines bs in if b == 0x0A then suc rest else rest

-- `std::to_chars`, which fails where the digits do not fit the rest of the buffer
unfoldable pub to_chars : ℕ → List ℕ → ℕ → Result (List ℕ)
to_chars size out n =
    if leb (length (decimal n)) (size - length out)
    then ok (out ++ decimal n)
    else err buffer_overflow

-- one round of `format_symbols`: what is in the buffer of `size` bytes after the symbol's line
unfoldable pub format_symbol : ℕ → List ℕ → SymbolInfo → Result (List ℕ)
unfolding symbol_kind_to_string to_chars
format_symbol size out sym =
    let kind_str = symbol_kind_to_string sym.kind in
    if leb size (length out + (length kind_str + 1 + length sym.name + 32))
    then err buffer_overflow
    else do
      out' ← to_chars size (out ++ (kind_str ++ (b' ' ∷ (sym.name ++ codes " [L")))) sym.start_line
      out'' ← to_chars size (out' ++ codes "-L") sym.end_line
      ok (out'' ++ (b']' ∷ 0x0A ∷ []))

unfoldable pub format_loop : ℕ → List ℕ → List SymbolInfo → Result (List ℕ)
unfolding format_symbol
format_loop size out [] = ok out
format_loop size out (sym ∷ symbols) = do
  out' ← format_symbol size out sym
  format_loop size out' symbols

unfoldable pub format_symbols : ℕ → List SymbolInfo → Result (List ℕ)
unfolding format_loop
format_symbols size symbols = format_loop size [] symbols

unfoldable pub slice_matched : List ℕ → Option SymbolInfo → Result SymbolSlice
slice_matched source none = err not_found
slice_matched source (some matched) =
    let len = (matched.end_byte + 2 ^ 32 - matched.start_byte) % 2 ^ 32 in
    ok (record {
      start_line = matched.start_line;
      end_line = matched.end_line;
      content = take len (drop matched.start_byte source);
    })

-- The new text in a destination of `size` bytes, of which the result counts the first.
unfoldable pub patch_matched : ℕ → List ℕ → List ℕ → Option SymbolInfo → Result PatchResult
unfolding newlines
patch_matched size source replacement none = err not_found
patch_matched size source replacement (some matched) =
    let prefix_len = matched.start_byte in
    let suffix_len = (length source + 2 ^ 64 - matched.end_byte) % 2 ^ 64 in
    if ltb size (prefix_len + length replacement + suffix_len)
    then err buffer_overflow
    else ok (record {
      old_start_line = matched.start_line;
      old_end_line = matched.end_line;
      new_end_line = (matched.start_line + newlines replacement) % 2 ^ 32;
      text =
          take prefix_len source ++ (replacement ++ take suffix_len (drop matched.end_byte source));
    })

module _ (ts : TreeSitter) where
  -- `parser` says that `parser_` is not null. The length is cast to 32 bits for the parser only.
  unfoldable pub extract_symbols : Bool → List ℕ → Lang → Result (List SymbolInfo)
  unfolding get_language
  extract_symbols parser source lang =
      if parser
      then elim (get_language lang) [
        | none ↦ err invalid_argument
        | some ts_lang ↦
            if ts.set_language ts_lang
            then elim (ts.parse_string ts_lang (take (length source % 2 ^ 32) source)) [
              | none ↦ err ast_error
              | some root ↦
                  ok (collect_symbols_recursive ts source (suc (ts.height root)) lang root [] [])
            ]
            else err ast_error
      ]
      else err ast_error

  unfoldable pub slice_symbol : Bool → List ℕ → Lang → List ℕ → Result SymbolSlice
  unfolding slice_matched
  slice_symbol parser source lang symbol_name = do
    symbols ← extract_symbols parser source lang
    slice_matched source (find_symbol symbols symbol_name)

  unfoldable pub patch_symbol : Bool → ℕ → List ℕ → Lang → List ℕ → List ℕ → Result PatchResult
  unfolding patch_matched
  patch_symbol parser size source lang symbol_name replacement = do
    symbols ← extract_symbols parser source lang
    patch_matched size source replacement (find_symbol symbols symbol_name)
