-- ===== src/Ast/Format.antt =====
-- What `format_symbols` of include/axiom/ast.hpp writes, and when it succeeds.
use axiom_vm.Prelude.{
  ℕ, zero, suc, ◌+◌, ◌-◌, ◌*◌, ◌/◌, ◌%◌, ◌^◌, ◌≤◌, ◌<◌, ◌≡◌, refl, ap, sym, true, false, List, [],
  ◌∷◌, ◌++◌, inl, inr, arith, ltb, leb, length, All, length-append, append_assoc, append-nil,
  Bool-cases, codes, le→leb, subst,
}
use axiom_vm.Common.{Result, ok, err, buffer_overflow}
use axiom_vm.Ast.{SymbolKind, SymbolInfo, symbol_kind_to_string}
use axiom_vm.Ast.Engine.{to_chars, format_symbol, format_loop, format_symbols}
use axiom_vm.Diff.{digits, decimal}

abbrev ten_to : ℕ → ℕ
ten_to zero = 1
ten_to (suc k) = 10 * ten_to k

-- The line of a symbol, and the lines of a table.
unfoldable pub symbol_line : SymbolInfo → List ℕ
symbol_line s =
    symbol_kind_to_string s.kind
    ++ (b' '
        ∷ (s.name
            ++ (codes " [L"
                ++ (decimal s.start_line ++ (codes "-L" ++ (decimal s.end_line ++ codes "]\n"))))))

abbrev pub symbol_lines : List SymbolInfo → List ℕ
symbol_lines [] = []
symbol_lines (s ∷ ss) = symbol_line s ++ symbol_lines ss

-- Both line numbers are 32-bit words.
abbrev pub HasLines : SymbolInfo → Type 0
HasLines s = (s.start_line < 2 ^ 32) × (s.end_line < 2 ^ 32)

length-digits : (fuel k n : ℕ) → n < ten_to (suc k) → length (digits fuel n) ≤ suc k
unfolding digits
length-digits zero k n h = omega arith
length-digits (suc fuel) zero n h = ground arith
length-digits (suc fuel) (suc k) n h = elim (Bool-cases (ltb n 10)) [
  | inl e ↦ rw e (omega arith)
  | inr e ↦ rw e (
      omega (
        arith,
        length-append (digits fuel (n / 10)) ((0x30 + n % 10) ∷ []),
        length-digits fuel k (n / 10) (omega arith),
      ))
]

length-decimal : (n : ℕ) → n < 2 ^ 32 → length (decimal n) ≤ 10
length-decimal n h = length-digits 20 9 n (omega arith)

to_chars_fits :
    (size : ℕ) (out : List ℕ) (n : ℕ)
    → n < 2 ^ 32
    → length out + 10 ≤ size
    → to_chars size out n ≡ ok (out ++ decimal n)
unfolding to_chars
to_chars_fits size out n h room =
    rw (le→leb (length (decimal n)) (size - length out) (omega (arith, length-decimal n h)))

-- What is asked for before a line is written.
abbrev pub needed : SymbolInfo → ℕ
needed s = length (symbol_kind_to_string s.kind) + 1 + length s.name + 32

length-symbol_line : (s : SymbolInfo) → HasLines s → length (symbol_line s) < needed s
unfolding symbol_line
length-symbol_line s (h, h') =
    let kind_str = symbol_kind_to_string s.kind in
    let last = decimal s.end_line ++ codes "]\n" in
    let lines_of = decimal s.start_line ++ (codes "-L" ++ last) in
    omega (
      arith,
      length-decimal s.start_line h,
      length-decimal s.end_line h',
      length-append kind_str (b' ' ∷ (s.name ++ (codes " [L" ++ lines_of))),
      length-append s.name (codes " [L" ++ lines_of),
      length-append (decimal s.start_line) (codes "-L" ++ last),
      length-append (decimal s.end_line) (codes "]\n"),
    )

format_symbol_fits :
    (size : ℕ) (out : List ℕ) (s : SymbolInfo)
    → HasLines s
    → leb size (length out + needed s) ≡ false
    → format_symbol size out s ≡ ok (out ++ symbol_line s)
unfolding format_symbol symbol_line
format_symbol_fits size out s (h, h') e =
    let kind_str = symbol_kind_to_string s.kind in
    let front = kind_str ++ (b' ' ∷ (s.name ++ codes " [L")) in
    let room : length out + needed s < size = ground arith in
    let first = out ++ front in
    let second = (first ++ decimal s.start_line) ++ codes "-L" in
    let lengths : length first ≡ length out + (length kind_str + 1 + length s.name + 3) = omega (
      arith,
      length-append out front,
      length-append kind_str (b' ' ∷ (s.name ++ codes " [L")),
      length-append s.name (codes " [L"),
    ) in
    let more : length second ≤ length first + 12 = omega (
      arith,
      length-append (first ++ decimal s.start_line) (codes "-L"),
      length-append first (decimal s.start_line),
      length-decimal s.start_line h,
    ) in
    rw
      (
        e,
        to_chars_fits size first s.start_line h (omega arith),
        to_chars_fits size second s.end_line h' (omega arith),
      )
      (ap ok (simp append_assoc))

format_symbol_refused :
    (size : ℕ) (out : List ℕ) (s : SymbolInfo)
    → leb size (length out + needed s) ≡ true
    → format_symbol size out s ≡ err buffer_overflow
unfolding format_symbol
format_symbol_refused size out s e = rw e

-- The outcomes of writing a table behind what is in the buffer.
pub data Formatted (size : ℕ) (out : List ℕ) (symbols : List SymbolInfo)
    : Result (List ℕ) → Type 0 where
  formatted :
      length (out ++ symbol_lines symbols) ≤ size
      → Formatted size out symbols (ok (out ++ symbol_lines symbols))
  too_long :
      (before behind : List SymbolInfo) (s : SymbolInfo)
      → symbols ≡ before ++ (s ∷ behind)
      → size ≤ length (out ++ symbol_lines before) + needed s
      → Formatted size out symbols (err buffer_overflow)

Formatted-later :
    (size : ℕ) (out : List ℕ) (s : SymbolInfo) (symbols : List SymbolInfo) (r : Result (List ℕ))
    → Formatted size (out ++ symbol_line s) symbols r
    → Formatted size out (s ∷ symbols) r
Formatted-later size out s symbols _ (formatted fits) =
    let e = append_assoc out (symbol_line s) (symbol_lines symbols) in
    subst (λ text. Formatted size out (s ∷ symbols) (ok text)) (sym e)
      (formatted (subst (λ text. length text ≤ size) e fits))
Formatted-later size out s symbols _ (too_long before behind t parts big) =
    too_long (s ∷ before) behind t (ap (λ ss. s ∷ ss) parts) (
      subst (λ text. size ≤ length text + needed t)
        (append_assoc out (symbol_line s) (symbol_lines before)) big)

format_loop-Formatted :
    (size : ℕ) (out : List ℕ) (symbols : List SymbolInfo)
    → length out ≤ size
    → All HasLines symbols
    → Formatted size out symbols (format_loop size out symbols)
unfolding format_loop
format_loop-Formatted size out [] fits h =
    subst (λ text. Formatted size out [] (ok text)) (append-nil out)
      (formatted (subst (λ text. length text ≤ size) (sym (append-nil out)) fits))
format_loop-Formatted size out (s ∷ symbols) fits (h, hs) =
    elim (Bool-cases (leb size (length out + needed s))) [
      | inl e ↦ rw (format_symbol_refused size out s e) (
          too_long [] symbols s refl
            (subst (λ text. size ≤ length text + needed s) (sym (append-nil out)) (ground arith)))
      | inr e ↦ rw (format_symbol_fits size out s h e) (
          Formatted-later size out s symbols _ (
            format_loop-Formatted size (out ++ symbol_line s) symbols
              (ground (arith, length-append out (symbol_line s), length-symbol_line s h)) hs))
    ]

-- With 32-bit line numbers `format_symbols` writes exactly the lines of all symbols, which then fit
-- the buffer, or fails with `buffer_overflow` at a symbol whose reserve of 32 bytes beside its kind
-- and name reaches the buffer's end behind the lines before it.
pub format_symbols-Formatted :
    (size : ℕ) (symbols : List SymbolInfo)
    → All HasLines symbols
    → Formatted size [] symbols (format_symbols size symbols)
unfolding format_symbols
format_symbols-Formatted size symbols h = format_loop-Formatted size [] symbols (omega arith) h

-- A table of names of at most 95 bytes stays within 137 bytes for each symbol.
abbrev IsShort : SymbolInfo → Type 0
IsShort s = length s.name ≤ 95

length-symbol_kind : (k : SymbolKind) → length (symbol_kind_to_string k) ≤ 9
unfolding symbol_kind_to_string
length-symbol_kind SymbolKind.unknown = omega arith
length-symbol_kind SymbolKind.function = omega arith
length-symbol_kind SymbolKind.method = omega arith
length-symbol_kind SymbolKind.class_ = omega arith
length-symbol_kind SymbolKind.struct = omega arith
length-symbol_kind SymbolKind.enum = omega arith
length-symbol_kind SymbolKind.interface = omega arith
length-symbol_kind SymbolKind.type_alias = omega arith
length-symbol_kind SymbolKind.import_ = omega arith

length-symbol_lines :
    (symbols : List SymbolInfo)
    → All IsShort symbols
    → All HasLines symbols
    → length (symbol_lines symbols) ≤ 137 * length symbols
length-symbol_lines [] short h = omega arith
length-symbol_lines (s ∷ ss) (short, shorts) (h, hs) = omega (
  arith,
  length-append (symbol_line s) (symbol_lines ss),
  length-symbol_line s h,
  length-symbol_kind s.kind,
  length-symbol_lines ss shorts hs,
)

All-before {ℓ κ} :
    {A : Type ℓ} (P : A → Type κ) (before behind : List A) (a : A)
    → All P (before ++ (a ∷ behind))
    → All P before × P a
All-before P [] behind a h = (tt, h.0)
All-before P (b ∷ before) behind a h =
    let (hs, ha) = All-before P before behind a h.1 in ((h.0, hs), ha)

pub format_symbols_fits :
    (size : ℕ) (symbols : List SymbolInfo)
    → All IsShort symbols
    → All HasLines symbols
    → length symbols ≤ 256
    → 35072 < size
    → (format_symbols size symbols ≡ ok (symbol_lines symbols))
      × (length (symbol_lines symbols) ≤ 35072)
format_symbols_fits size symbols short h few room = (
  only_formatted _ (format_symbols-Formatted size symbols h),
  omega (arith, length-symbol_lines symbols short h),
)
  where
    only_formatted :
        (r : Result (List ℕ)) → Formatted size [] symbols r → r ≡ ok (symbol_lines symbols)
    only_formatted _ (formatted fits) = refl
    only_formatted _ (too_long before behind s parts big) =
        let short' = subst (All IsShort) parts short in
        let h' = subst (All HasLines) parts h in
        let (shorts, short_s) = All-before IsShort before behind s short' in
        let (hs, _) = All-before HasLines before behind s h' in
        let few' = subst (λ ss. length ss ≤ 256) parts few in
        absurd (
          omega (
            arith,
            length-symbol_lines before shorts hs,
            length-symbol_kind s.kind,
            length-append before (s ∷ behind),
          ))
