-- ===== src/Ast/Visit.antt =====
-- `collect_symbols_recursive` of include/axiom/ast.hpp, a function for each language. `again` is the
-- recursive call, and `rest` the loop over the named children at the function's end.
use axiom_vm.Prelude.{
  ℕ, zero, suc, Bool, true, false, ◌||◌, ◌&&◌, not, Option, none, some, List, [], ◌∷◌,
  if◌then◌else◌, ◌==◌,
}
use axiom_vm.Ast.{Lang, SymbolKind, SymbolInfo}
use axiom_vm.Ast.Tree.{TreeSitter}
use axiom_vm.Ast.Record.{empty, full, is_one_of, node_text, find_descendant, record_symbol}
use Prim.Native.String.{String}
use text.Mathlib.Text.{◌==◌ as str_eq}

-- `remove_suffix(1)` while the last byte is a newline, a return or, in some languages, a semicolon
unfoldable pub is_trailing : Bool → ℕ → Bool
is_trailing semicolon b = b == 0x0A || b == 0x0D || (semicolon && b == b';')

unfoldable pub trim : Bool → List ℕ → List ℕ
unfolding is_trailing empty
trim semicolon [] = []
trim semicolon (b ∷ bs) =
    let rest = trim semicolon bs in if empty rest && is_trailing semicolon b then [] else b ∷ rest

unfoldable pub free_or_method : List ℕ → SymbolKind
unfolding empty
free_or_method parent_scope = if empty parent_scope then SymbolKind.function else SymbolKind.method

abbrev pub Out : Type 0
Out = List SymbolInfo

module _ (ts : TreeSitter) where
  -- The recursive call, at its node, scope and output.
  abbrev pub Visitor : Type 0
  Visitor = ts.TsNode → List ℕ → Out → Out

  -- the loop over named children
  unfoldable pub each : Visitor → List ℕ → List ts.TsNode → Out → Out
  each again scope [] out = out
  each again scope (c ∷ cs) out = each again scope cs (again c scope out)

  -- the loop that visits only children of some types
  unfoldable pub each_of : List String → Visitor → List ℕ → List ts.TsNode → Out → Out
  unfolding is_one_of
  each_of types again scope [] out = out
  each_of types again scope (c ∷ cs) out =
      each_of types again scope cs
        (if is_one_of (ts.node_type (some c)) types then again c scope out else out)

  -- the members of a body that is there
  unfoldable pub members : Visitor → List ℕ → Option ts.TsNode → Out → Out
  unfolding each
  members again scope none out = out
  members again scope (some body) out = each again scope (ts.named_children body) out

  module _ (src : List ℕ) where
    -- a symbol under the text of a node's field "name"
    unfoldable pub record_named : SymbolKind → ts.TsNode → Out → List ℕ → Out
    unfolding node_text record_symbol
    record_named k node out scope =
        record_symbol ts k (node_text ts (ts.child_by_field_name node "name") src) node out scope

    unfoldable pub record_import : Bool → ts.TsNode → Out → List ℕ → Out
    unfolding node_text record_symbol trim
    record_import semicolon node out scope =
        record_symbol ts SymbolKind.import_ (trim semicolon (node_text ts (some node) src)) node out
          scope

    -- a class with its members, whose scope is the class
    unfoldable pub record_class : Visitor → SymbolKind → ts.TsNode → Out → List ℕ → Out
    unfolding node_text record_symbol members
    record_class again k node out scope =
        let class_name = node_text ts (ts.child_by_field_name node "name") src in
        members again class_name (ts.child_by_field_name node "body")
          (record_symbol ts k class_name node out scope)

    unfoldable pub visit_rust : Visitor → ts.TsNode → List ℕ → Out → Out → Out
    unfolding free_or_method record_named record_import members node_text
    visit_rust again node scope out rest =
        let type = ts.node_type (some node) in
        if str_eq type "function_item"
        then record_named (free_or_method scope) node out scope
        else if str_eq type "struct_item"
        then record_named SymbolKind.struct node out scope
        else if str_eq type "enum_item"
        then record_named SymbolKind.enum node out scope
        else if str_eq type "trait_item"
        then record_named SymbolKind.interface node out scope
        else if str_eq type "use_declaration"
        then record_import true node out scope
        else if str_eq type "impl_item"
        then members again (node_text ts (ts.child_by_field_name node "type") src)
            (ts.child_by_field_name node "body") out
        else rest

    -- the kind of a Go type by the node behind its name
    unfoldable pub go_kind : String → SymbolKind
    go_kind tt =
        if str_eq tt "struct_type"
        then SymbolKind.struct
        else if str_eq tt "interface_type"
        then SymbolKind.interface
        else SymbolKind.type_alias

    unfoldable pub each_spec : List ℕ → List ts.TsNode → Out → Out
    unfolding record_named go_kind
    each_spec scope [] out = out
    each_spec scope (spec ∷ specs) out = each_spec scope specs (
        if str_eq (ts.node_type (some spec)) "type_spec"
        then record_named (go_kind (ts.node_type (ts.child_by_field_name spec "type"))) spec out
            scope
        else out)

    unfoldable pub visit_go : ts.TsNode → List ℕ → Out → Out → Out
    unfolding record_named record_import each_spec
    visit_go node scope out rest =
        let type = ts.node_type (some node) in
        if str_eq type "function_declaration"
        then record_named SymbolKind.function node out scope
        else if str_eq type "method_declaration"
        then record_named SymbolKind.method node out scope
        else if str_eq type "type_declaration"
        then each_spec scope (ts.named_children node) out
        else if str_eq type "import_declaration"
        then record_import false node out scope
        else rest

    -- the first descendant of the declarator with a type among the targets
    unfoldable pub declared_id : List String → ts.TsNode → Option ts.TsNode
    unfolding find_descendant
    declared_id targets node = elim (ts.child_by_field_name node "declarator") [
      | none ↦ none
      | some decl ↦ find_descendant ts (suc (ts.height decl)) targets decl
    ]

    unfoldable pub record_function : ts.TsNode → Out → List ℕ → Out
    unfolding declared_id node_text record_symbol empty
    record_function node out scope =
        let id =
          declared_id
            ("identifier" ∷ "field_identifier" ∷ "qualified_identifier" ∷ "destructor_name" ∷ [])
            node in
        let k =
          if not (empty scope) || str_eq (ts.node_type id) "qualified_identifier"
          then SymbolKind.method
          else SymbolKind.function in
        record_symbol ts k (node_text ts id src) node out scope

    unfoldable pub visit_c : Visitor → ts.TsNode → List ℕ → Out → Out → Out
    unfolding record_function record_class record_named record_import declared_id node_text
        record_symbol each_of
    visit_c again node scope out rest =
        let type = ts.node_type (some node) in
        if str_eq type "function_definition"
        then record_function node out scope
        else if str_eq type "class_specifier" || str_eq type "struct_specifier"
        then record_class again
            (if str_eq type "class_specifier" then SymbolKind.class_ else SymbolKind.struct) node
            out scope
        else if str_eq type "enum_specifier"
        then record_named SymbolKind.enum node out scope
        else if str_eq type "type_definition"
        then record_symbol ts SymbolKind.type_alias
            (node_text ts (declared_id ("type_identifier" ∷ "identifier" ∷ []) node) src) node out
            scope
        else if str_eq type "preproc_include"
        then record_import false node out scope
        else if str_eq type "template_declaration"
        then each_of ("function_definition" ∷ "class_specifier" ∷ "struct_specifier" ∷ []) again
            scope (ts.named_children node) out
        else if str_eq type "declaration"
        then each_of ("class_specifier" ∷ "struct_specifier" ∷ "enum_specifier" ∷ []) again scope
            (ts.named_children node) out
        else rest

    unfoldable pub visit_python : Visitor → ts.TsNode → List ℕ → Out → Out → Out
    unfolding free_or_method record_named record_class record_import
    visit_python again node scope out rest =
        let type = ts.node_type (some node) in
        if str_eq type "function_definition"
        then record_named (free_or_method scope) node out scope
        else if str_eq type "class_definition"
        then record_class again SymbolKind.class_ node out scope
        else if str_eq type "import_statement" || str_eq type "import_from_statement"
        then record_import false node out scope
        else rest

    -- the declaration that is exported, or the named children
    unfoldable pub visit_exported : Visitor → Option ts.TsNode → List ℕ → Out → Out → Out
    visit_exported again none scope out rest = rest
    visit_exported again (some decl) scope out rest = again decl scope out

    unfoldable pub visit_script : Visitor → ts.TsNode → List ℕ → Out → Out → Out
    unfolding free_or_method record_named record_class record_import visit_exported
    visit_script again node scope out rest =
        let type = ts.node_type (some node) in
        if str_eq type "function_declaration" || str_eq type "function_signature"
        then record_named (free_or_method scope) node out scope
        else if str_eq type "method_definition" || str_eq type "method_signature"
        then record_named SymbolKind.method node out scope
        else if str_eq type "class_declaration" || str_eq type "class"
        then record_class again SymbolKind.class_ node out scope
        else if str_eq type "interface_declaration"
        then record_named SymbolKind.interface node out scope
        else if str_eq type "type_alias_declaration"
        then record_named SymbolKind.type_alias node out scope
        else if str_eq type "enum_declaration"
        then record_named SymbolKind.enum node out scope
        else if str_eq type "import_statement"
        then record_import true node out scope
        else if str_eq type "export_statement"
        then visit_exported again (ts.child_by_field_name node "declaration") scope out rest
        else rest

    unfoldable pub visit : Visitor → Lang → ts.TsNode → List ℕ → Out → Out → Out
    unfolding visit_rust visit_go visit_c visit_python visit_script
    visit again Lang.rust node scope out rest = visit_rust again node scope out rest
    visit again Lang.go node scope out rest = visit_go node scope out rest
    visit again Lang.c node scope out rest = visit_c again node scope out rest
    visit again Lang.cpp node scope out rest = visit_c again node scope out rest
    visit again Lang.python node scope out rest = visit_python again node scope out rest
    visit again Lang.type_script node scope out rest = visit_script again node scope out rest
    visit again Lang.java_script node scope out rest = visit_script again node scope out rest
    visit again Lang.unknown node scope out rest = rest

    -- With fuel for the levels of the tree. A node that is visited is not null.
    unfoldable pub collect_symbols_recursive : ℕ → Lang → Visitor
    unfolding visit each full
    collect_symbols_recursive zero lang node scope out = out
    collect_symbols_recursive (suc fuel) lang node scope out =
        let again = collect_symbols_recursive fuel lang in
        let visited =
          visit again lang node scope out (each again scope (ts.named_children node) out) in
        if full out then out else visited
