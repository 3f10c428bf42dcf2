-- ===== src/Ast/Declared.antt =====
-- What the table of symbols of include/axiom/ast.hpp says of the tree, and that the fuel for the
-- levels of the tree is enough.
use axiom_vm.Prelude.{
  ℕ, suc, ◌+◌, ◌-◌, ◌%◌, ◌^◌, ◌≤◌, ◌<◌, ◌≡◌, refl, ap, Bool, true, false, ◌||◌, some, List, [], ◌∷◌,
  ◌++◌, arith, length, take, min, All, All-append, IsIn, All-of_in, all_at, All-map, Option-cases,
  inl, inr, length-append, length-take, Bool-cases, subst,
}
use axiom_vm.Common.{ok}
use axiom_vm.Ast.{Lang, SymbolKind, SymbolInfo}
use axiom_vm.Ast.Tree.{TreeSitter, IsTree, Grammar}
use axiom_vm.Ast.Record.{
  empty, full, is_method, scope_prefix, recorded_name, symbol_info, record_symbol,
}
use axiom_vm.Ast.Visit.{Out, collect_symbols_recursive}
use axiom_vm.Ast.Engine.{extract_symbols, get_language}
use axiom_vm.Ast.Related.{collect-related}
use Prim.Native.String.{String}

-- A kept prefix and what fits behind it stay below the array's 96 bytes.
length-scope_prefix : (k : SymbolKind) (scope : List ℕ) → length (scope_prefix k scope) ≤ 95
unfolding scope_prefix
length-scope_prefix k [] = omega arith
length-scope_prefix k (b ∷ bs) = elim (Bool-cases (is_method k)) [
  | inl e ↦ rw e (
      omega (
        arith,
        length-append (take (min (length (b ∷ bs)) 93) (b ∷ bs)) (b':' ∷ b':' ∷ []),
        length-take (min (length (b ∷ bs)) 93) (b ∷ bs),
      ))
  | inr e ↦ rw e (omega arith)
]

length-recorded_name :
    (k : SymbolKind) (name scope : List ℕ) → length (recorded_name k name scope) ≤ 95
unfolding recorded_name
length-recorded_name k name scope =
    let prefix = scope_prefix k scope in
    omega (
      arith,
      length-scope_prefix k scope,
      length-append prefix (take (min (length name) (95 - length prefix)) name),
      length-take (min (length name) (95 - length prefix)) name,
    )

module _ (ts : TreeSitter) where
  -- The nodes that the visits can reach: over named children and fields.
  pub data Under (root : ts.TsNode) : ts.TsNode → Type 0 where
    here : Under root root
    child :
        {n : ts.TsNode} (c : ts.TsNode) → Under root n → IsIn c (ts.named_children n) → Under root c
    field :
        {n : ts.TsNode} (c : ts.TsNode) (name : String)
        → Under root n
        → ts.child_by_field_name n name ≡ some c
        → Under root c

  -- A symbol is recorded from a node of the tree, whose range and lines it keeps.
  pub record IsDeclared (root : ts.TsNode) (s : SymbolInfo) : Type 0 where
    pub node : ts.TsNode
    pub under : Under root node
    pub starts : s.start_byte ≡ ts.start_byte node
    pub ends : s.end_byte ≡ ts.end_byte node
    pub start_line_of : s.start_line ≡ (ts.start_row node + 1) % 2 ^ 32
    pub end_line_of : s.end_line ≡ (ts.end_row node + 1) % 2 ^ 32
    pub name_fits : length s.name ≤ 95

  abbrev pub IsTable : ts.TsNode → Out → Type 0
  IsTable root out = (length out ≤ 256) × All (IsDeclared root) out

  -- Two outputs that are the same and a table.
  abbrev SameTable : ts.TsNode → Out → Out → Type 0
  SameTable root a b = (a ≡ b) × IsTable root a

  record_symbol-IsTable :
      (root : ts.TsNode) (k : SymbolKind) (name : List ℕ) (n : ts.TsNode) (a : Out) (scope : List ℕ)
      → Under root n
      → IsTable root a
      → IsTable root (record_symbol ts k name n a scope)
  unfolding record_symbol full symbol_info
  record_symbol-IsTable root k name n a scope u t = elim (Bool-cases (empty name || full a)) [
    | inl e ↦ rw e t
    | inr e ↦ rw e ((room e, All-append (IsDeclared root) a _ t.1 (declared, tt)))
  ]
    where
      room :
          (empty name || full a) ≡ false → length (a ++ (symbol_info ts k name n scope ∷ [])) ≤ 256
      room e = ground (arith, length-append a (symbol_info ts k name n scope ∷ []))

      declared : IsDeclared root (symbol_info ts k name n scope)
      declared = record {
        node = n;
        under = u;
        starts = refl;
        ends = refl;
        start_line_of = refl;
        end_line_of = refl;
        name_fits = length-recorded_name k name scope;
      }

  module _ (tree : IsTree ts) where
    collect-SameTable :
        (src : List ℕ) (lang : Lang) (n m : ℕ) (root node : ts.TsNode) (scope : List ℕ) (a : Out)
        → ts.height node < n
        → ts.height node < m
        → Under root node
        → IsTable root a
        → SameTable root
            (collect_symbols_recursive ts src n lang node scope a)
            (collect_symbols_recursive ts src m lang node scope a)
    collect-SameTable src lang n m root node scope a hn hm u t =
        collect-related ts tree (Under root)
          (λ p up. All-of_in (Under root) (ts.named_children p) (λ c i. child c up i))
          (λ p c name up e. field c name up e) (SameTable root)
          (λ k name p x y scope' up r. (
            ap (λ o. record_symbol ts k name p o scope') r.0,
            record_symbol-IsTable root k name p x scope' up r.1,
          ))
          (λ x y r. ap full r.0) src lang n m node scope a a hn hm u (refl, t)

    -- A node below another one ends no later.
    Under-le : {root n : ts.TsNode} → Under root n → ts.end_byte n ≤ ts.end_byte root
    Under-le here = omega arith
    Under-le (child {n} c u i) =
        let inside =
          all_at (λ (d : ts.TsNode). ts.end_byte d ≤ ts.end_byte n) i (tree.named_inside n) in
        omega (arith, Under-le u)
    Under-le (field {n} c name u e) = omega (arith, Under-le u, tree.field_inside n name c e)

    -- The levels below the node bound the depth of the recursion: with any two fuels above them
    -- `collect_symbols_recursive` collects the same symbols, from a table that has at most 256
    -- entries, each recorded from a node that stands below the same root.
    pub collect_symbols_recursive-fuel :
        (src : List ℕ) (lang : Lang) (n m : ℕ) (root node : ts.TsNode) (scope : List ℕ) (out : Out)
        → ts.height node < n
        → ts.height node < m
        → Under root node
        → IsTable root out
        → collect_symbols_recursive ts src n lang node scope out
          ≡ collect_symbols_recursive ts src m lang node scope out
    collect_symbols_recursive-fuel src lang n m root node scope out hn hm u t =
        (collect-SameTable src lang n m root node scope out hn hm u t).0

    -- A range inside the source.
    abbrev pub IsInside : List ℕ → SymbolInfo → Type 0
    IsInside source s = (s.start_byte ≤ s.end_byte) × (s.end_byte ≤ length source)

    declared-IsInside :
        (source : List ℕ) (root : ts.TsNode)
        → ts.end_byte root ≤ length source
        → (s : SymbolInfo) → IsDeclared root s
        → IsInside source s
    declared-IsInside source root h s d = (
      omega (arith, tree.ordered d.node, d.starts, d.ends),
      omega (arith, Under-le d.under, d.ends),
    )

    root-le :
        (g : Grammar) (source : List ℕ) (root : ts.TsNode)
        → ts.parse_string g (take (length source % 2 ^ 32) source) ≡ some root
        → ts.end_byte root ≤ length source
    root-le g source root e = omega (
      arith,
      tree.root_inside g (take (length source % 2 ^ 32) source) root e,
      length-take (length source % 2 ^ 32) source,
    )

    pub record Extracted (source : List ℕ) (symbols : Out) : Type 0 where
      pub root : ts.TsNode
      pub grammar : Grammar
      pub parsed : ts.parse_string grammar (take (length source % 2 ^ 32) source) ≡ some root
      pub at_most : length symbols ≤ 256
      pub declared : All (IsDeclared root) symbols
      pub inside : All (IsInside source) symbols

    extracted :
        (source : List ℕ) (lang : Lang) (g : Grammar) (root : ts.TsNode)
        → ts.parse_string g (take (length source % 2 ^ 32) source) ≡ some root
        → Extracted source
            (collect_symbols_recursive ts source (suc (ts.height root)) lang root [] [])
    extracted source lang g root e =
        let (_, table) =
          collect-SameTable source lang (suc (ts.height root)) (suc (ts.height root)) root root []
            [] (omega arith) (omega arith) here (omega arith, tt) in
        record {
          root = root;
          grammar = g;
          parsed = e;
          at_most = table.0;
          declared = table.1;
          inside = All-map _ (declared-IsInside source root (root-le g source root e)) table.1;
        }

    -- Where `extract_symbols` succeeds, the parser gave a tree, the table has at most 256 symbols,
    -- each has the byte range and the lines of a node of that tree and a name of at most 95 bytes,
    -- and each range is in order and lies inside the source.
    pub extract_symbols-Extracted :
        (parser : Bool) (source : List ℕ) (lang : Lang) (symbols : Out)
        → extract_symbols ts parser source lang ≡ ok symbols
        → Extracted source symbols
    unfolding extract_symbols
    extract_symbols-Extracted false source lang symbols h = cc
    extract_symbols-Extracted true source lang symbols h = elim (Option-cases (get_language lang)) [
      | inl none_there ↦ let h' = rw (extract_symbols, none_there) at h in cc (h')
      | inr (g, eg) ↦ elim (Bool-cases (ts.set_language g)) [
        | inr refused ↦ let h' = rw (extract_symbols, eg, refused) at h in cc (h')
        | inl set ↦ elim (Option-cases (ts.parse_string g (take (length source % 2 ^ 32) source))) [
          | inl e ↦ let h' = rw (extract_symbols, eg, set, e) at h in cc (h')
          | inr (root, e) ↦
              let h' = rw (extract_symbols, eg, set, e) at h in
              subst (Extracted source) (cc) (extracted source lang g root e)
        ]
      ]
    ]
