-- ===== src/Ast/Find.antt =====
-- `find_symbol` of include/axiom/ast.hpp: the three loops over the symbols.
use axiom_vm.Prelude.{
  ℕ, ◌+◌, ◌-◌, Bool, true, false, ◌&&◌, Option, none, some, List, [], ◌∷◌, if◌then◌else◌, ltb, ◌==◌,
  length, take, drop, codes, same_text,
}
use axiom_vm.Ast.{SymbolInfo}

-- a loop that returns the first symbol which passes a test
unfoldable pub find_if : (SymbolInfo → Bool) → List SymbolInfo → Option SymbolInfo
find_if test [] = none
find_if test (s ∷ ss) = let rest = find_if test ss in if test s then some s else rest

unfoldable pub is_exact : List ℕ → SymbolInfo → Bool
unfolding same_text
is_exact query s = same_text s.name query

-- The loop over `i` and `j`: what is left of the name and of the query. Where both end together
-- the symbol matches.
unfoldable pub spelled_loop : List ℕ → List ℕ → Bool
spelled_loop [] [] = true
spelled_loop [] (q ∷ query) = false
spelled_loop (n ∷ name) [] = false
spelled_loop (n ∷ []) (q ∷ query) =
    let rest = spelled_loop [] query in if n == q then rest else false
spelled_loop (n ∷ n' ∷ name) (q ∷ []) =
    let at_dot = spelled_loop name [] in
    let rest = spelled_loop (n' ∷ name) [] in
    if n == b':' && n' == b':'
    then (if q == b'.' then at_dot else false)
    else if n == q
    then rest
    else false
spelled_loop (n ∷ n' ∷ name) (q ∷ q' ∷ query) =
    let at_dot = spelled_loop name (q' ∷ query) in
    let at_colons = spelled_loop name query in
    let rest = spelled_loop (n' ∷ name) (q' ∷ query) in
    if n == b':' && n' == b':'
    then (if q == b'.' then at_dot else if q == b':' && q' == b':' then at_colons else false)
    else if n == q
    then rest
    else false

unfoldable pub is_spelled : List ℕ → SymbolInfo → Bool
unfolding spelled_loop
is_spelled query s = spelled_loop s.name query

unfoldable pub ends_scoped : List ℕ → List ℕ → Bool
unfolding same_text
ends_scoped name query =
    let sep_pos = length name - length query - 2 in
    ltb (length query + 2) (length name)
    && (same_text (take 2 (drop sep_pos name)) (codes "::")
        && same_text (drop (sep_pos + 2) name) query)

unfoldable pub is_suffix : List ℕ → SymbolInfo → Bool
unfolding ends_scoped
is_suffix query s = ends_scoped s.name query

unfoldable pub find_symbol : List SymbolInfo → List ℕ → Option SymbolInfo
unfolding find_if is_exact is_spelled is_suffix
find_symbol symbols query = elim (find_if (is_exact query) symbols) [
  | some s ↦ some s
  | none ↦ elim (find_if (is_spelled query) symbols) [
    | some s ↦ some s
    | none ↦ find_if (is_suffix query) symbols
  ]
]
