-- ===== src/Ast/Tree.antt =====
-- What the engine of include/axiom/ast.hpp takes from tree-sitter: the calls, and what it relies on.
use axiom_vm.Prelude.{ℕ, ◌≤◌, ◌<◌, ◌≡◌, Bool, Option, some, List, length, All}
use Prim.Native.String.{String}

-- The grammars behind the `tree_sitter_` entry points.
pub data Grammar : Type 0 where
  tree_sitter_c tree_sitter_cpp tree_sitter_go : Grammar
  tree_sitter_rust_orchard tree_sitter_python tree_sitter_typescript : Grammar

-- The calls. A handle that may be null is an `Option`; what `ts_node_type` answers for the null
-- handle is tree-sitter's.
pub record TreeSitter : Type 1 where
  pub TsNode : Type 0
  pub node_type : Option TsNode → String
  pub start_byte : TsNode → ℕ
  pub end_byte : TsNode → ℕ
  pub start_row : TsNode → ℕ
  pub end_row : TsNode → ℕ
  -- `ts_node_child` and `ts_node_named_child` for each index below the count
  pub children : TsNode → List TsNode
  pub named_children : TsNode → List TsNode
  pub child_by_field_name : TsNode → String → Option TsNode
  pub set_language : Grammar → Bool
  -- `ts_parser_parse_string`, then `ts_tree_root_node`
  pub parse_string : Grammar → List ℕ → Option TsNode
  -- how many levels of nodes stand below a node
  pub height : TsNode → ℕ

-- What is documented: the nodes make a finite tree, a node spans its children, and the root lies in
-- the text that was parsed.
pub record IsTree (ts : TreeSitter) : Type 0 where
  pub children_lower :
      (n : ts.TsNode) → All (λ (c : ts.TsNode). ts.height c < ts.height n) (ts.children n)
  pub named_lower :
      (n : ts.TsNode) → All (λ (c : ts.TsNode). ts.height c < ts.height n) (ts.named_children n)
  pub field_lower :
      (n : ts.TsNode) (field : String) (c : ts.TsNode)
      → ts.child_by_field_name n field ≡ some c
      → ts.height c < ts.height n
  pub ordered : (n : ts.TsNode) → ts.start_byte n ≤ ts.end_byte n
  pub named_inside :
      (n : ts.TsNode) → All (λ (c : ts.TsNode). ts.end_byte c ≤ ts.end_byte n) (ts.named_children n)
  pub field_inside :
      (n : ts.TsNode) (field : String) (c : ts.TsNode)
      → ts.child_by_field_name n field ≡ some c
      → ts.end_byte c ≤ ts.end_byte n
  pub root_inside :
      (g : Grammar) (source : List ℕ) (root : ts.TsNode)
      → ts.parse_string g source ≡ some root
      → ts.end_byte root ≤ length source
