-- ===== src/Ast/Spelled.antt =====
-- When the second and the third loop of `find_symbol` of include/axiom/ast.hpp take a name.
use axiom_vm.Prelude.{
  ℕ, ◌+◌, ◌-◌, ◌<◌, ◌≡◌, ◌≢◌, refl, ap, ap₂, sym, ◌∙◌, subst, inl, inr, Bool, true, false, ◌&&◌,
  List, [], ◌∷◌, ◌++◌, arith, ltb, ◌==◌, length, take, drop, Bool-cases, codes, same_text,
  same_text→eq, same_text_self, ltb→lt, lt→ltb, take-append-drop, length-append, drop-length-append,
  drop-drop, length-take,
}
use axiom_vm.Ast.Find.{spelled_loop, ends_scoped}

-- A "::" stands in front: a colon and, before the rest, another.
abbrev pub separates : ℕ → List ℕ → Bool
separates b [] = false
separates b (n ∷ name) = b == b':' && n == b':'

-- The query is the name with a dot in place of some of its "::", each taken as far left as it can be.
pub data Spelled : List ℕ → List ℕ → Type 0 where
  ends : Spelled [] []
  dot : {name query : List ℕ} → Spelled name query → Spelled (b':' ∷ b':' ∷ name) (b'.' ∷ query)
  colons :
      {name query : List ℕ}
      → Spelled name query
      → Spelled (b':' ∷ b':' ∷ name) (b':' ∷ b':' ∷ query)
  byte :
      (b : ℕ) {name query : List ℕ}
      → separates b name ≡ false
      → Spelled name query
      → Spelled (b ∷ name) (b ∷ query)

pub spelled_loop_complete :
    {name query : List ℕ} → Spelled name query → spelled_loop name query ≡ true
unfolding spelled_loop
spelled_loop_complete ends = refl
spelled_loop_complete (dot {name = name} {query = []} s) = spelled_loop_complete s
spelled_loop_complete (dot {name = name} {query = q ∷ query} s) = spelled_loop_complete s
spelled_loop_complete (colons s) = spelled_loop_complete s
spelled_loop_complete (byte b {name = []} {query = query} e s) =
    ground (arith, spelled_loop_complete s)
spelled_loop_complete (byte b {name = n ∷ name} {query = []} e s) =
    ground (arith, spelled_loop_complete s)
spelled_loop_complete (byte b {name = n ∷ name} {query = q ∷ query} e s) =
    ground (arith, spelled_loop_complete s)

-- The constructors at bytes that are known by their tests.
at_dot :
    (n n' q : ℕ) {name query : List ℕ}
    → (n == b':' && n' == b':') ≡ true
    → (q == b'.') ≡ true
    → Spelled name query
    → Spelled (n ∷ n' ∷ name) (q ∷ query)
at_dot n n' q {name} {query} e d s =
    let en : n ≡ b':' = ground arith in
    let en' : n' ≡ b':' = ground arith in
    let eq : q ≡ b'.' = ground arith in rw (en, en', eq) (dot s)

at_colons :
    (n n' q q' : ℕ) {name query : List ℕ}
    → (n == b':' && n' == b':') ≡ true
    → (q == b':' && q' == b':') ≡ true
    → Spelled name query
    → Spelled (n ∷ n' ∷ name) (q ∷ q' ∷ query)
at_colons n n' q q' {name} {query} e d s =
    let en : n ≡ b':' = ground arith in
    let en' : n' ≡ b':' = ground arith in
    let eq : q ≡ b':' = ground arith in
    let eq' : q' ≡ b':' = ground arith in rw (en, en', eq, eq') (colons s)

at_byte :
    (n q : ℕ) {name query : List ℕ}
    → separates n name ≡ false
    → (n == q) ≡ true
    → Spelled name query
    → Spelled (n ∷ name) (q ∷ query)
at_byte n q {name} {query} e d s =
    let same : n ≡ q = ground arith in subst (λ b. Spelled (n ∷ name) (b ∷ query)) same (byte n e s)

pub spelled_loop-Spelled :
    (name query : List ℕ) → spelled_loop name query ≡ true → Spelled name query
unfolding spelled_loop
spelled_loop-Spelled [] [] h = ends
spelled_loop-Spelled [] (q ∷ query) h = cc
spelled_loop-Spelled (n ∷ []) [] h = cc
spelled_loop-Spelled (n ∷ n' ∷ name) [] h = cc
spelled_loop-Spelled (n ∷ []) (q ∷ query) h = elim (Bool-cases (n == q)) [
  | inl e ↦ at_byte n q refl e (spelled_loop-Spelled [] query (ground arith))
  | inr e ↦ absurd (ground arith)
]
spelled_loop-Spelled (n ∷ n' ∷ name) (q ∷ []) h = elim (Bool-cases (n == b':' && n' == b':')) [
  | inl e ↦ elim (Bool-cases (q == b'.')) [
    | inl d ↦ at_dot n n' q e d (spelled_loop-Spelled name [] (ground arith))
    | inr d ↦ absurd (ground arith)
  ]
  | inr e ↦ elim (Bool-cases (n == q)) [
    | inl d ↦ at_byte n q e d (spelled_loop-Spelled (n' ∷ name) [] (ground arith))
    | inr d ↦ absurd (ground arith)
  ]
]
spelled_loop-Spelled (n ∷ n' ∷ name) (q ∷ q' ∷ query) h =
    elim (Bool-cases (n == b':' && n' == b':')) [
      | inl e ↦ elim (Bool-cases (q == b'.')) [
        | inl d ↦ at_dot n n' q e d (spelled_loop-Spelled name (q' ∷ query) (ground arith))
        | inr d ↦ elim (Bool-cases (q == b':' && q' == b':')) [
          | inl c ↦ at_colons n n' q q' e c (spelled_loop-Spelled name query (ground arith))
          | inr c ↦ absurd (ground arith)
        ]
      ]
      | inr e ↦ elim (Bool-cases (n == q)) [
        | inl d ↦ at_byte n q e d (spelled_loop-Spelled (n' ∷ name) (q' ∷ query) (ground arith))
        | inr d ↦ absurd (ground arith)
      ]
    ]

-- The name is the query behind a scope and "::".
abbrev pub IsScoped : List ℕ → List ℕ → Type 0
IsScoped query name = (scope : List ℕ) × (scope ≢ []) × (name ≡ scope ++ (codes "::" ++ query))

length-ne_nil : (xs : List ℕ) → 0 < length xs → xs ≢ []
length-ne_nil [] h = absurd (omega arith)
length-ne_nil (x ∷ xs) h = cc

and_true : (a b c : Bool) → (a && (b && c)) ≡ true → (a ≡ true) × (b ≡ true) × (c ≡ true)
and_true true true true h = (refl, refl, refl)
and_true true true false h = cc
and_true true false c h = cc
and_true false b c h = cc

pub ends_scoped-IsScoped :
    (name query : List ℕ) → ends_scoped name query ≡ true → IsScoped query name
unfolding ends_scoped
ends_scoped-IsScoped name query h =
    let sep : ℕ = length name - length query - 2 in
    let (longer, colons_there, query_there) =
      and_true (ltb (length query + 2) (length name))
        (same_text (take 2 (drop sep name)) (codes "::")) (same_text (drop (sep + 2) name) query)
        h in
    let fits = ltb→lt _ _ longer in
    let rest =
      sym (take-append-drop 2 (drop sep name))
      ∙ ap₂ ◌++◌ (same_text→eq _ _ colons_there)
          (drop-drop 2 sep name ∙ same_text→eq _ _ query_there) in
    (
      take sep name,
      length-ne_nil _ (omega (arith, length-take sep name)),
      sym (take-append-drop sep name) ∙ ap (λ r. take sep name ++ r) rest,
    )

pub IsScoped-ends_scoped :
    (name query : List ℕ) → IsScoped query name → ends_scoped name query ≡ true
unfolding ends_scoped
IsScoped-ends_scoped name query ([], some_scope, e) = absurd (some_scope refl)
IsScoped-ends_scoped name query (b ∷ scope, some_scope, e) =
    let lengths : length name ≡ length (b ∷ scope) + (2 + length query) =
      ap length e ∙ length-append (b ∷ scope) (codes "::" ++ query) ∙ (omega arith) in
    let sep : length name - length query - 2 ≡ length (b ∷ scope) = omega arith in
    let behind : drop (length (b ∷ scope)) name ≡ codes "::" ++ query =
      ap (drop (length (b ∷ scope))) e
      ∙ drop-length-append (length (b ∷ scope)) (b ∷ scope) (codes "::" ++ query) refl in
    let after : drop (length (b ∷ scope) + 2) name ≡ query =
      sym (drop-drop 2 (length (b ∷ scope)) name) ∙ ap (drop 2) behind in
    rw (
      sep,
      behind,
      after,
      lt→ltb (length query + 2) (length name) (omega arith),
      same_text_self query,
    )
