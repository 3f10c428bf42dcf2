-- ===== src/Ast/Found.antt =====
-- Which symbol `find_symbol` of include/axiom/ast.hpp finds.
use axiom_vm.Prelude.{
  ℕ, ◌≡◌, ap, subst, inl, inr, Bool, true, false, Option, none, some, List, [], ◌∷◌, ◌++◌, arith,
  All, Bool-cases, Option-cases, same_text→eq, same_text→ne,
}
use axiom_vm.Ast.{SymbolInfo}
use axiom_vm.Ast.Find.{find_if, is_exact, is_spelled, is_suffix, find_symbol}
use axiom_vm.Ast.Spelled.{
  Spelled, spelled_loop_complete, spelled_loop-Spelled, IsScoped, ends_scoped-IsScoped,
  IsScoped-ends_scoped,
}

-- The first symbol of a list with a property.
pub record IsFirst (P : SymbolInfo → Type 0) (symbols : List SymbolInfo) (s : SymbolInfo)
    : Type 0 where
  pub before : List SymbolInfo
  pub behind : List SymbolInfo
  pub parts : symbols ≡ before ++ (s ∷ behind)
  pub not_before : All (λ t. ¬ P t) before
  pub holds : P s

module _ (P : SymbolInfo → Type 0) (test : SymbolInfo → Bool)
    (sound : (s : SymbolInfo) → test s ≡ true → P s)
    (refutes : (s : SymbolInfo) → test s ≡ false → ¬ P s) where
  find_if-IsFirst :
      (symbols : List SymbolInfo) (s : SymbolInfo)
      → find_if test symbols ≡ some s
      → IsFirst P symbols s
  unfolding find_if
  find_if-IsFirst [] s h = cc
  find_if-IsFirst (t ∷ ts) s h = elim (Bool-cases (test t)) [
    | inl e ↦
        let same : t ≡ s = ground arith in
        record {
          before = [];
          behind = ts;
          parts = ap (λ u. u ∷ ts) same;
          not_before = tt;
          holds = subst P same (sound t e);
        }
    | inr e ↦
        let r = find_if-IsFirst ts s (ground arith) in
        record {
          before = t ∷ r.before;
          behind = r.behind;
          parts = ap (λ us. t ∷ us) r.parts;
          not_before = (refutes t e, r.not_before);
          holds = r.holds;
        }
  ]

  find_if-none :
      (symbols : List SymbolInfo) → find_if test symbols ≡ none → All (λ t. ¬ P t) symbols
  unfolding find_if
  find_if-none [] h = tt
  find_if-none (t ∷ ts) h = elim (Bool-cases (test t)) [
    | inl e ↦ absurd (ground arith)
    | inr e ↦ (refutes t e, find_if-none ts (ground arith))
  ]

abbrev Exactly : List ℕ → SymbolInfo → Type 0
Exactly query s = s.name ≡ query

abbrev Dotted : List ℕ → SymbolInfo → Type 0
Dotted query s = Spelled s.name query

abbrev Scoped : List ℕ → SymbolInfo → Type 0
Scoped query s = IsScoped query s.name

abbrev pub No : (SymbolInfo → Type 0) → List SymbolInfo → Type 0
No P symbols = All (λ s. ¬ P s) symbols

-- What the search gives, by the best way in which some symbol matches.
pub data Found (symbols : List SymbolInfo) (query : List ℕ) : Option SymbolInfo → Type 0 where
  exact : (s : SymbolInfo) → IsFirst (Exactly query) symbols s → Found symbols query (some s)
  dotted :
      (s : SymbolInfo)
      → No (Exactly query) symbols
      → IsFirst (Dotted query) symbols s
      → Found symbols query (some s)
  scoped :
      (s : SymbolInfo)
      → No (Exactly query) symbols
      → No (Dotted query) symbols
      → IsFirst (Scoped query) symbols s
      → Found symbols query (some s)
  missing :
      No (Exactly query) symbols
      → No (Dotted query) symbols
      → No (Scoped query) symbols
      → Found symbols query none

module _ (query : List ℕ) where
  Exactly-sound : (s : SymbolInfo) → is_exact query s ≡ true → Exactly query s
  unfolding is_exact
  Exactly-sound s h = same_text→eq s.name query h

  Exactly-refutes : (s : SymbolInfo) → is_exact query s ≡ false → ¬ Exactly query s
  unfolding is_exact
  Exactly-refutes s h = same_text→ne s.name query h

  Dotted-sound : (s : SymbolInfo) → is_spelled query s ≡ true → Dotted query s
  unfolding is_spelled
  Dotted-sound s h = spelled_loop-Spelled s.name query h

  Dotted-refutes : (s : SymbolInfo) → is_spelled query s ≡ false → ¬ Dotted query s
  unfolding is_spelled
  Dotted-refutes s h d = cc (spelled_loop_complete d)

  Scoped-sound : (s : SymbolInfo) → is_suffix query s ≡ true → Scoped query s
  unfolding is_suffix
  Scoped-sound s h = ends_scoped-IsScoped s.name query h

  Scoped-refutes : (s : SymbolInfo) → is_suffix query s ≡ false → ¬ Scoped query s
  unfolding is_suffix
  Scoped-refutes s h d = cc (IsScoped-ends_scoped s.name query d)

-- `find_symbol` finds the first symbol named exactly as the query; without one, the first whose
-- name is the query with dots for some "::"; without one, the first whose name is the query behind a
-- scope and "::"; and nothing if no symbol matches in any of the three ways.
pub find_symbol-Found :
    (symbols : List SymbolInfo) (query : List ℕ) → Found symbols query (find_symbol symbols query)
unfolding find_symbol
find_symbol-Found symbols query = elim (Option-cases (find_if (is_exact query) symbols)) [
  | inr (s, e) ↦
      rw (find_symbol, e)
        (exact s (find_if-IsFirst _ _ (Exactly-sound query) (Exactly-refutes query) symbols s e))
  | inl e ↦
      let no_exact = find_if-none _ _ (Exactly-sound query) (Exactly-refutes query) symbols e in
      elim (Option-cases (find_if (is_spelled query) symbols)) [
        | inr (s, d) ↦
            rw (find_symbol, e, d)
              (dotted s no_exact
                (find_if-IsFirst _ _ (Dotted-sound query) (Dotted-refutes query) symbols s d))
        | inl d ↦
            let no_dotted =
              find_if-none _ _ (Dotted-sound query) (Dotted-refutes query) symbols d in
            elim (Option-cases (find_if (is_suffix query) symbols)) [
              | inr (s, f) ↦
                  rw (find_symbol, e, d, f)
                    (scoped s no_exact no_dotted
                      (find_if-IsFirst _ _ (Scoped-sound query) (Scoped-refutes query) symbols s f))
              | inl f ↦
                  rw (find_symbol, e, d, f)
                    (missing no_exact no_dotted
                      (find_if-none _ _ (Scoped-sound query) (Scoped-refutes query) symbols f))
            ]
      ]
]
