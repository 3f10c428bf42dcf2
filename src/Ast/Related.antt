-- ===== src/Ast/Related.antt =====
-- One induction over the visits of include/axiom/ast.hpp: a relation between two outputs that
-- recording a symbol keeps is kept by the whole collection, for nodes with a property that their
-- children and fields inherit.
use axiom_vm.Prelude.{
  ℕ, zero, suc, ◌<◌, ◌≡◌, refl, Bool, true, false, ◌||◌, Option, none, some, List, [], ◌∷◌, arith,
  if◌then◌else◌, All,
}
use axiom_vm.Ast.{Lang, SymbolKind}
use axiom_vm.Ast.Tree.{TreeSitter, IsTree}
use axiom_vm.Ast.Record.{full, is_one_of, record_symbol}
use axiom_vm.Ast.Visit.{
  Out, Visitor, each, each_of, members, record_named, record_import, record_class, visit_rust,
  each_spec, visit_go, record_function, visit_c, visit_python, visit_exported, visit_script, visit,
  collect_symbols_recursive,
}
use Prim.Native.String.{String}
use text.Mathlib.Text.{◌==◌ as str_eq}

module _ (ts : TreeSitter) (tree : IsTree ts) (Q : ts.TsNode → Type 0)
    (named : (n : ts.TsNode) → Q n → All Q (ts.named_children n))
    (fields : (n c : ts.TsNode) (field : String)
      → Q n
      → ts.child_by_field_name n field ≡ some c
      → Q c)
    (R : Out → Out → Type 0)
    (records : (k : SymbolKind) (name : List ℕ) (n : ts.TsNode) (a b : Out) (scope : List ℕ)
      → Q n
      → R a b
      → R (record_symbol ts k name n a scope) (record_symbol ts k name n b scope)) where
  -- A test picks the same branch on both sides.
  branch : (t : Bool) {a b c d : Out} → R a b → R c d → R (if t then a else c) (if t then b else d)
  branch true p q = p
  branch false p q = q

  -- Two visitors that keep the relation at every node below a height.
  abbrev Agree : ℕ → Visitor ts → Visitor ts → Type 0
  Agree h v w =
      (c : ts.TsNode) (scope : List ℕ) (a b : Out)
      → ts.height c < h
      → Q c
      → R a b
      → R (v c scope a) (w c scope b)

  abbrev Below : ℕ → List ts.TsNode → Type 0
  Below h cs = All (λ (c : ts.TsNode). ts.height c < h) cs

  each-related :
      (h : ℕ) (v w : Visitor ts) (scope : List ℕ) (cs : List ts.TsNode) (a b : Out)
      → Agree h v w
      → Below h cs
      → All Q cs
      → R a b
      → R (each ts v scope cs a) (each ts w scope cs b)
  unfolding each
  each-related h v w scope [] a b agree below qs r = r
  each-related h v w scope (c ∷ cs) a b agree (hc, hs) (qc, qs) r =
      each-related h v w scope cs _ _ agree hs qs (agree c scope a b hc qc r)

  each_of-related :
      (types : List String) (h : ℕ) (v w : Visitor ts) (scope : List ℕ) (cs : List ts.TsNode)
      (a b : Out)
      → Agree h v w
      → Below h cs
      → All Q cs
      → R a b
      → R (each_of ts types v scope cs a) (each_of ts types w scope cs b)
  unfolding each_of
  each_of-related types h v w scope [] a b agree below qs r = r
  each_of-related types h v w scope (c ∷ cs) a b agree (hc, hs) (qc, qs) r =
      each_of-related types h v w scope cs _ _ agree hs qs
        (branch (is_one_of (ts.node_type (some c)) types) (agree c scope a b hc qc r) r)

  spec-related :
      (src : List ℕ) (scope : List ℕ) (specs : List ts.TsNode) (a b : Out)
      → All Q specs
      → R a b
      → R (each_spec ts src scope specs a) (each_spec ts src scope specs b)
  unfolding each_spec record_named
  spec-related src scope [] a b qs r = r
  spec-related src scope (spec ∷ specs) a b (h, hs) r =
      spec-related src scope specs _ _ hs (branch _ (records _ _ spec a b scope h r) r)

  module _ (node : ts.TsNode) (q : Q node) (v w : Visitor ts)
      (agree : Agree (ts.height node) v w) where
    field-related :
        (scope : List ℕ) (field : String) (o : Option ts.TsNode) (a b : Out)
        → ts.child_by_field_name node field ≡ o
        → R a b
        → R (members ts v scope o a) (members ts w scope o b)
    unfolding members
    field-related scope field none a b e r = r
    field-related scope field (some body) a b e r =
        let low = tree.field_lower node field body e in
        each-related (ts.height body) v w scope (ts.named_children body) a b
          (λ c s x y hc. agree c s x y (omega arith)) (tree.named_lower body)
          (named body (fields node body field q e)) r

    module _ (src : List ℕ) where
      exported-related :
          (scope : List ℕ) (field : String) (o : Option ts.TsNode) (a b c d : Out)
          → ts.child_by_field_name node field ≡ o
          → R a b
          → R c d
          → R (visit_exported ts src v o scope a c) (visit_exported ts src w o scope b d)
      unfolding visit_exported
      exported-related scope field none a b c d e r s = s
      exported-related scope field (some decl) a b c d e r s =
          agree decl scope a b (tree.field_lower node field decl e) (fields node decl field q e) r

      named-related :
          (k : SymbolKind) (a b : Out) (scope : List ℕ)
          → R a b
          → R (record_named ts src k node a scope) (record_named ts src k node b scope)
      unfolding record_named
      named-related k a b scope r = records k _ node a b scope q r

      import-related :
          (semicolon : Bool) (a b : Out) (scope : List ℕ)
          → R a b
          → R
              (record_import ts src semicolon node a scope)
              (record_import ts src semicolon node b scope)
      unfolding record_import
      import-related semicolon a b scope r = records _ _ node a b scope q r

      class-related :
          (k : SymbolKind) (a b : Out) (scope : List ℕ)
          → R a b
          → R (record_class ts src v k node a scope) (record_class ts src w k node b scope)
      unfolding record_class
      class-related k a b scope r =
          field-related _ "body" _ _ _ refl (records k _ node a b scope q r)

      function-related :
          (a b : Out) (scope : List ℕ)
          → R a b
          → R (record_function ts src node a scope) (record_function ts src node b scope)
      unfolding record_function
      function-related a b scope r = records _ _ node a b scope q r

      abbrev is : String → Bool
      is = str_eq (ts.node_type (some node))

      -- The rest of the visit, over the named children.
      module _ (scope : List ℕ) (a b c d : Out) (r : R a b) (s : R c d) where
        rust-related : R (visit_rust ts src v node scope a c) (visit_rust ts src w node scope b d)
        unfolding visit_rust
        rust-related = branch (is "function_item") (named-related _ a b scope r) (
            branch (is "struct_item") (named-related _ a b scope r) (
              branch (is "enum_item") (named-related _ a b scope r) (
                branch (is "trait_item") (named-related _ a b scope r) (
                  branch (is "use_declaration") (import-related true a b scope r)
                    (branch (is "impl_item") (field-related _ "body" _ a b refl r) s)))))

        python-related :
            R (visit_python ts src v node scope a c) (visit_python ts src w node scope b d)
        unfolding visit_python
        python-related = branch (is "function_definition") (named-related _ a b scope r) (
            branch (is "class_definition") (class-related _ a b scope r) (
              branch (is "import_statement" || is "import_from_statement")
                (import-related false a b scope r) s))

        script-related :
            R (visit_script ts src v node scope a c) (visit_script ts src w node scope b d)
        unfolding visit_script
        script-related =
            branch (is "function_declaration" || is "function_signature")
              (named-related _ a b scope r)
              (branch (is "method_definition" || is "method_signature")
                (named-related _ a b scope r)
                (branch (is "class_declaration" || is "class") (class-related _ a b scope r) (
                  branch (is "interface_declaration") (named-related _ a b scope r) (
                    branch (is "type_alias_declaration") (named-related _ a b scope r) (
                      branch (is "enum_declaration") (named-related _ a b scope r) (
                        branch (is "import_statement") (import-related true a b scope r) (
                          branch (is "export_statement")
                            (exported-related scope "declaration" _ a b c d refl r s) s)))))))

        c-related : R (visit_c ts src v node scope a c) (visit_c ts src w node scope b d)
        unfolding visit_c
        c-related =
            let below = tree.named_lower node in
            let qs = named node q in
            branch (is "function_definition") (function-related a b scope r) (
              branch (is "class_specifier" || is "struct_specifier") (class-related _ a b scope r) (
                branch (is "enum_specifier") (named-related _ a b scope r) (
                  branch (is "type_definition") (records _ _ node a b scope q r) (
                    branch (is "preproc_include") (import-related false a b scope r) (
                      branch (is "template_declaration")
                        (each_of-related
                          ("function_definition" ∷ "class_specifier" ∷ "struct_specifier" ∷ [])
                          (ts.height node) v w scope _ a b agree below qs r)
                        (branch (is "declaration")
                          (each_of-related
                            ("class_specifier" ∷ "struct_specifier" ∷ "enum_specifier" ∷ [])
                            (ts.height node) v w scope _ a b agree below qs r)
                          s))))))

        go-related : R (visit_go ts src node scope a c) (visit_go ts src node scope b d)
        unfolding visit_go
        go-related = branch (is "function_declaration") (named-related _ a b scope r) (
            branch (is "method_declaration") (named-related _ a b scope r) (
              branch (is "type_declaration")
                (spec-related src scope (ts.named_children node) a b (named node q) r)
                (branch (is "import_declaration") (import-related false a b scope r) s)))

        visit-related :
            (lang : Lang)
            → R (visit ts src v lang node scope a c) (visit ts src w lang node scope b d)
        unfolding visit
        visit-related Lang.unknown = s
        visit-related Lang.c = c-related
        visit-related Lang.cpp = c-related
        visit-related Lang.go = go-related
        visit-related Lang.rust = rust-related
        visit-related Lang.python = python-related
        visit-related Lang.type_script = script-related
        visit-related Lang.java_script = script-related

  -- Two collections with enough fuel, from related outputs that are full together.
  pub collect-related :
      (full_together : (a b : Out) → R a b → full a ≡ full b) (src : List ℕ) (lang : Lang) (n m : ℕ)
      (node : ts.TsNode) (scope : List ℕ) (a b : Out)
      → ts.height node < n
      → ts.height node < m
      → Q node
      → R a b
      → R
          (collect_symbols_recursive ts src n lang node scope a)
          (collect_symbols_recursive ts src m lang node scope b)
  unfolding collect_symbols_recursive
  collect-related full_together src lang zero m node scope a b hn hm q r = absurd (omega arith)
  collect-related full_together src lang (suc n) zero node scope a b hn hm q r =
      absurd (omega arith)
  collect-related full_together src lang (suc n) (suc m) node scope a b hn hm q r =
      let v = collect_symbols_recursive ts src n lang in
      let w = collect_symbols_recursive ts src m lang in
      let agree : Agree (ts.height node) v w = λ c s x y hc.
        collect-related full_together src lang n m c s x y (omega arith) (omega arith) in
      let rest =
        each-related (ts.height node) v w scope (ts.named_children node) a b agree
          (tree.named_lower node) (named node q) r in
      rw (← full_together a b r)
        (branch (full a) r (visit-related node q v w agree src scope a b _ _ r rest lang))
