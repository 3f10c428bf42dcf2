-- ===== src/Tests/Ast.antt =====
-- The engine of include/axiom/ast.hpp on a small Rust file, "fn run() { }".
use axiom_vm.Prelude.{
  ℕ, zero, suc, ◌≤◌, ◌<◌, ◌≡◌, refl, ◌≢◌, true, Option, none, some, List, [], ◌∷◌, arith,
  if◌then◌else◌, ◌==◌, length, All, codes, Bool-cases, inl, inr,
}
use axiom_vm.Common.{ok}
use axiom_vm.Ast.{Lang, SymbolKind, SymbolInfo, detect_language}
use axiom_vm.Ast.Tree.{TreeSitter, IsTree}
use axiom_vm.Ast.Record.{recorded_name}
use axiom_vm.Ast.Visit.{collect_symbols_recursive}
use axiom_vm.Ast.Find.{find_symbol}
use axiom_vm.Ast.Found.{Found, find_symbol-Found}
use axiom_vm.Ast.Engine.{extract_symbols, slice_symbol, patch_symbol, format_symbols}
use axiom_vm.Ast.Declared.{
  here, Extracted, extract_symbols-Extracted, collect_symbols_recursive-fuel,
}
use axiom_vm.Ast.Format.{Formatted, format_symbols-Formatted}
use axiom_vm.Ast.Patch.{Replaceable, slice_symbol-Replaceable}
use axiom_vm.Ast.Serving.{with_engine, with_engine-AstFits}
use axiom_vm.Diff.{digits}
use axiom_vm.Server.Services.{SymbolSlice, not_formatted}
use axiom_vm.Tests.Sample.{refusing}
use axiom_vm.Server.Dispatch.Contract.{AstFits}
use Prim.Native.String.{String}
use text.Mathlib.Text.{◌==◌ as str_eq}

-- The file is node 2, the function node 1, and its name node 0.
abbrev type_of : Option ℕ → String
type_of none = ""
type_of (some zero) = "identifier"
type_of (some (suc zero)) = "function_item"
type_of (some (suc (suc n))) = "source_file"

abbrev start_of : ℕ → ℕ
start_of zero = 3
start_of (suc n) = 0

abbrev end_of : ℕ → ℕ
end_of zero = 6
end_of (suc n) = 12

abbrev children_of : ℕ → List ℕ
children_of zero = []
children_of (suc zero) = []
children_of (suc (suc n)) = 1 ∷ []

abbrev name_of : ℕ → String → Option ℕ
name_of zero field = none
name_of (suc zero) field = if str_eq field "name" then some 0 else none
name_of (suc (suc n)) field = none

abbrev small_rust : TreeSitter
small_rust = record {
  TsNode = ℕ;
  node_type = type_of;
  start_byte = start_of;
  end_byte = end_of;
  start_row = λ n. 0;
  end_row = λ n. 0;
  children = children_of;
  named_children = children_of;
  child_by_field_name = name_of;
  set_language = λ g. true;
  parse_string = λ g source. if length source == 12 then some 2 else none;
  height = λ n. n;
}

children_of-lt : (n : ℕ) → All (λ (c : ℕ). c < n) (children_of n)
children_of-lt zero = tt
children_of-lt (suc zero) = tt
children_of-lt (suc (suc n)) = (omega arith, tt)

children_of-inside : (n : ℕ) → All (λ (c : ℕ). end_of c ≤ end_of n) (children_of n)
children_of-inside zero = tt
children_of-inside (suc zero) = tt
children_of-inside (suc (suc n)) = (omega arith, tt)

name_of-zero : (n : ℕ) (field : String) (c : ℕ) → name_of n field ≡ some c → (n ≡ 1) × (c ≡ 0)
name_of-zero zero field c h = cc
name_of-zero (suc zero) field c h = elim (Bool-cases (str_eq field "name")) [
  | inl e ↦ (refl, ground arith)
  | inr e ↦ absurd (ground arith)
]
name_of-zero (suc (suc n)) field c h = cc

start-le-end : (n : ℕ) → start_of n ≤ end_of n
start-le-end zero = omega arith
start-le-end (suc n) = omega arith

end_of-le : (n : ℕ) → end_of n ≤ 12
end_of-le zero = omega arith
end_of-le (suc n) = omega arith

field-inside : (n : ℕ) (field : String) (c : ℕ) → name_of n field ≡ some c → end_of c ≤ end_of n
field-inside n field c h = let (en, ec) = name_of-zero n field c h in rw (en, ec) (omega arith)

small_rust-IsTree : IsTree small_rust
small_rust-IsTree = record {
  children_lower = children_of-lt;
  named_lower = children_of-lt;
  field_lower =
      λ n field c h. omega (arith, (name_of-zero n field c h).0, (name_of-zero n field c h).1);
  ordered = start-le-end;
  named_inside = children_of-inside;
  field_inside = field-inside;
  root_inside = λ g source root h. ground (arith, end_of-le root);
}

abbrev source : List ℕ
source = codes "fn run() { }"

abbrev run_symbol : SymbolInfo
run_symbol = record {
  kind = SymbolKind.function;
  name = codes "run";
  start_line = 1;
  end_line = 1;
  start_byte = 0;
  end_byte = 12;
}

run_found : extract_symbols small_rust true source Lang.rust ≡ ok (run_symbol ∷ [])
unfolding extract_symbols collect_symbols_recursive
run_found = refl

-- A method of a class, and a scope that leaves its name no room.
method_name : recorded_name SymbolKind.method (codes "push") (codes "Stack") ≡ codes "Stack::push"
unfolding recorded_name
method_name = refl

not_a_language : detect_language (codes "a.c/Makefile") ≡ Lang.unknown
unfolding detect_language
not_a_language = refl

cpp_header : detect_language (codes "src/ast.test.hpp") ≡ Lang.cpp
unfolding detect_language
cpp_header = refl

abbrev push_symbol : SymbolInfo
push_symbol = record run_symbol { kind = SymbolKind.method; name = codes "Stack::push" }

by_dot : find_symbol (run_symbol ∷ push_symbol ∷ []) (codes "Stack.push") ≡ some push_symbol
unfolding find_symbol
by_dot = refl

by_suffix : find_symbol (run_symbol ∷ push_symbol ∷ []) (codes "push") ≡ some push_symbol
unfolding find_symbol
by_suffix = refl

two_lines : format_symbols 100 (push_symbol ∷ []) ≡ ok (codes "method Stack::push [L1-L1]\n")
unfolding format_symbols digits
two_lines = refl

find_symbol-Found_example :
    Found
      (run_symbol ∷ push_symbol ∷ [])
      (codes "push")
      (find_symbol (run_symbol ∷ push_symbol ∷ []) (codes "push"))
find_symbol-Found_example = find_symbol-Found (run_symbol ∷ push_symbol ∷ []) (codes "push")

extract_symbols-Extracted_example : Extracted small_rust small_rust-IsTree source (run_symbol ∷ [])
extract_symbols-Extracted_example =
    extract_symbols-Extracted small_rust small_rust-IsTree true source Lang.rust (run_symbol ∷ [])
      run_found

collect_symbols_recursive-fuel_example :
    collect_symbols_recursive small_rust source 3 Lang.rust 2 [] []
    ≡ collect_symbols_recursive small_rust source 7 Lang.rust 2 [] []
collect_symbols_recursive-fuel_example =
    collect_symbols_recursive-fuel small_rust small_rust-IsTree source Lang.rust 3 7 2 2 [] []
      (omega arith) (omega arith) here (omega arith, tt)

format_symbols-Formatted_example :
    Formatted 60 []
      (run_symbol ∷ push_symbol ∷ [])
      (format_symbols 60 (run_symbol ∷ push_symbol ∷ []))
format_symbols-Formatted_example =
    format_symbols-Formatted 60 (run_symbol ∷ push_symbol ∷ []) (omega arith)

abbrev run_slice : SymbolSlice
run_slice = record { start_line = 1; end_line = 1; content = source }

run_sliced : slice_symbol small_rust true source Lang.rust (codes "run") ≡ ok run_slice
unfolding slice_symbol extract_symbols collect_symbols_recursive find_symbol
run_sliced = refl

slice_symbol-Replaceable_example : Replaceable source run_slice (λ size replacement.
    patch_symbol small_rust true size source Lang.rust (codes "run") replacement)
slice_symbol-Replaceable_example =
    slice_symbol-Replaceable small_rust true source Lang.rust (codes "run") run_slice
      small_rust-IsTree (omega arith) run_sliced

with_engine-AstFits_example :
    AstFits (with_engine small_rust true refusing)
    × ((path text : List ℕ) (n : ℕ)
        → (with_engine small_rust true refusing).symbols path text ≢ not_formatted n)
with_engine-AstFits_example = with_engine-AstFits small_rust true small_rust-IsTree refusing
