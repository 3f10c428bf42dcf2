-- ===== src/Ast/Record.antt =====
-- `node_text`, `find_descendant` and `record_symbol` of include/axiom/ast.hpp.
use axiom_vm.Prelude.{
  ℕ, zero, suc, ◌+◌, ◌-◌, ◌%◌, ◌^◌, Bool, true, false, ◌||◌, Option, none, some, List, [], ◌∷◌,
  ◌++◌, if◌then◌else◌, ltb, leb, length, take, drop, min, codes,
}
use axiom_vm.Ast.{SymbolKind, SymbolInfo, max_symbols, max_symbol_name_len}
use axiom_vm.Ast.Tree.{TreeSitter}
use Prim.Native.String.{String}
use text.Mathlib.Text.{◌==◌ as str_eq}

-- `string_view::empty`
unfoldable pub empty : List ℕ → Bool
empty [] = true
empty (b ∷ bs) = false

unfoldable pub is_method : SymbolKind → Bool
is_method SymbolKind.method = true
is_method _ = false

-- The vector `out`, whose `push_back` refuses at `MAX_SYMBOLS`.
unfoldable pub full : List SymbolInfo → Bool
full out = leb max_symbols (length out)

-- the name that fits: for a method with a scope, the scope and "::" in front
unfoldable pub scope_prefix : SymbolKind → List ℕ → List ℕ
unfolding empty is_method
scope_prefix k [] = []
scope_prefix k (b ∷ bs) =
    if is_method k
    then take (min (length (b ∷ bs)) (max_symbol_name_len - 3)) (b ∷ bs) ++ codes "::"
    else []

unfoldable pub recorded_name : SymbolKind → List ℕ → List ℕ → List ℕ
unfolding scope_prefix
recorded_name k name_str parent_scope =
    let prefix = scope_prefix k parent_scope in
    prefix ++ take (min (length name_str) (max_symbol_name_len - 1 - length prefix)) name_str

-- whether a type is among the candidates
unfoldable pub is_one_of : String → List String → Bool
is_one_of nt [] = false
is_one_of nt (t ∷ ts) = let rest = is_one_of nt ts in if str_eq nt t then true else rest

module _ (ts : TreeSitter) where
  unfoldable pub node_text : Option ts.TsNode → List ℕ → List ℕ
  node_text none src = []
  node_text (some node) src =
      let sb = ts.start_byte node in
      let eb = ts.end_byte node in
      if leb (length src) sb || ltb (length src) eb || leb eb sb
      then []
      else take (eb - sb) (drop sb src)

  -- the loop over the children: the first answer that is not null
  unfoldable pub first_found : (ts.TsNode → Option ts.TsNode) → List ts.TsNode → Option ts.TsNode
  first_found find [] = none
  first_found find (c ∷ cs) = elim (find c) [ some res ↦ some res | none ↦ first_found find cs ]

  -- with fuel for the levels of the tree
  unfoldable pub find_descendant : ℕ → List String → ts.TsNode → Option ts.TsNode
  unfolding is_one_of first_found
  find_descendant zero types node = none
  find_descendant (suc fuel) types node =
      let rest = first_found (find_descendant fuel types) (ts.children node) in
      if is_one_of (ts.node_type (some node)) types then some node else rest

  unfoldable pub symbol_info : SymbolKind → List ℕ → ts.TsNode → List ℕ → SymbolInfo
  unfolding recorded_name
  symbol_info k name_str sym_node parent_scope = record {
    kind = k;
    name = recorded_name k name_str parent_scope;
    start_line = (ts.start_row sym_node + 1) % 2 ^ 32;
    end_line = (ts.end_row sym_node + 1) % 2 ^ 32;
    start_byte = ts.start_byte sym_node;
    end_byte = ts.end_byte sym_node;
  }

  unfoldable pub record_symbol :
      SymbolKind → List ℕ → ts.TsNode → List SymbolInfo → List ℕ → List SymbolInfo
  unfolding empty full symbol_info
  record_symbol k name_str sym_node out parent_scope =
      if empty name_str || full out
      then out
      else out ++ (symbol_info k name_str sym_node parent_scope ∷ [])
