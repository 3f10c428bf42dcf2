-- ===== src/Ast.antt =====
-- include/axiom/ast.hpp: the languages, the kinds of symbols and what is recorded of a symbol. The
-- children model the engine: Tree is what it takes from tree-sitter.
pub mod Tree
pub mod Record
pub mod Visit
pub mod Find
pub mod Engine
pub mod Related
pub mod Declared
pub mod Spelled
pub mod Found
pub mod Format
pub mod Patch
pub mod Serving
use axiom_vm.Prelude.{
  ℕ, Bool, true, false, ◌||◌, Option, none, some, List, [], ◌∷◌, if◌then◌else◌, ◌==◌, codes,
  same_text,
}

-- `enum class Lang`
pub data Lang : Type 0 where
  unknown c cpp go rust python type_script java_script : Lang

-- `enum class SymbolKind`
pub data SymbolKind : Type 0 where
  unknown function method class_ struct enum interface type_alias import_ : SymbolKind

unfoldable pub symbol_kind_to_string : SymbolKind → List ℕ
symbol_kind_to_string SymbolKind.function = codes "function"
symbol_kind_to_string SymbolKind.method = codes "method"
symbol_kind_to_string SymbolKind.class_ = codes "class"
symbol_kind_to_string SymbolKind.struct = codes "struct"
symbol_kind_to_string SymbolKind.enum = codes "enum"
symbol_kind_to_string SymbolKind.interface = codes "interface"
symbol_kind_to_string SymbolKind.type_alias = codes "type"
symbol_kind_to_string SymbolKind.import_ = codes "import"
symbol_kind_to_string SymbolKind.unknown = codes "unknown"

-- `MAX_SYMBOLS` and `MAX_SYMBOL_NAME_LEN`
abbrev pub max_symbols : ℕ
max_symbols = 256

abbrev pub max_symbol_name_len : ℕ
max_symbol_name_len = 96

-- `path.substr(path.rfind('.'))`, or nothing where the path has no dot
unfoldable pub extension : List ℕ → Option (List ℕ)
extension [] = none
extension (b ∷ bs) = elim (extension bs) [
  | some ext ↦ some ext
  | none ↦ if b == b'.' then some (b ∷ bs) else none
]

unfoldable pub language_of : List ℕ → Lang
unfolding same_text
language_of ext =
    if same_text ext (codes ".c") || same_text ext (codes ".h")
    then Lang.c
    else if same_text ext (codes ".cpp")
        || same_text ext (codes ".hpp")
        || same_text ext (codes ".cc")
        || same_text ext (codes ".cxx")
        || same_text ext (codes ".hh")
    then Lang.cpp
    else if same_text ext (codes ".go")
    then Lang.go
    else if same_text ext (codes ".rs")
    then Lang.rust
    else if same_text ext (codes ".py")
    then Lang.python
    else if same_text ext (codes ".ts") || same_text ext (codes ".tsx")
    then Lang.type_script
    else if same_text ext (codes ".js")
        || same_text ext (codes ".jsx")
        || same_text ext (codes ".mjs")
        || same_text ext (codes ".cjs")
    then Lang.java_script
    else Lang.unknown

unfoldable pub detect_language : List ℕ → Lang
unfolding extension language_of
detect_language path = elim (extension path) [ none ↦ Lang.unknown | some ext ↦ language_of ext ]

-- `SymbolInfo`, its name as far as `name_len` says
pub record SymbolInfo : Type 0 where
  pub kind : SymbolKind
  pub name : List ℕ
  pub start_line : ℕ
  pub end_line : ℕ
  pub start_byte : ℕ
  pub end_byte : ℕ
