-- ===== src/Cdp.antt =====
-- `AXTreeFilter` of include/axiom/cdp.hpp: fields of a JSON text, found by their names. A position in
-- a text is the rest of the text from there.
pub mod Tree
pub mod Handles
pub mod Scan
pub mod Bridge
pub mod Commands
pub mod Clicks
use axiom_vm.Prelude.{
  ℕ, zero, suc, ◌+◌, ◌-◌, ◌*◌, ◌^◌, ◌%◌, Bool, true, false, ◌||◌, ◌&&◌, Option, none, some, List,
  [], ◌∷◌, if◌then◌else◌, ltb, leb, ◌==◌, length, take, drop, codes, same_text,
}

-- whether one of the texts is the role
unfoldable pub is_role_of : List (List ℕ) → List ℕ → Bool
unfolding same_text
is_role_of [] role = false
is_role_of (r ∷ rs) role = let rest = is_role_of rs role in if same_text role r then true else rest

unfoldable pub is_actionable_role : List ℕ → Bool
unfolding is_role_of
is_actionable_role = is_role_of (
    codes "button"
    ∷ codes "link"
    ∷ codes "textbox"
    ∷ codes "searchbox"
    ∷ codes "checkbox"
    ∷ codes "radio"
    ∷ codes "combobox"
    ∷ codes "listbox"
    ∷ codes "menuitem"
    ∷ codes "menuitemcheckbox"
    ∷ codes "menuitemradio"
    ∷ codes "tab"
    ∷ codes "switch"
    ∷ codes "slider"
    ∷ codes "spinbutton"
    ∷ codes "treeitem"
    ∷ [])

unfoldable pub is_layout_role : List ℕ → Bool
unfolding is_role_of
is_layout_role = is_role_of (
    codes "none"
    ∷ codes "generic"
    ∷ codes "genericContainer"
    ∷ codes "LineBreak"
    ∷ codes "InlineTextBox"
    ∷ codes "RootWebArea"
    ∷ codes "group"
    ∷ codes "Section"
    ∷ codes "paragraph"
    ∷ codes "LayoutTable"
    ∷ codes "LayoutTableRow"
    ∷ codes "LayoutTableCell"
    ∷ codes "Ignored"
    ∷ [])

-- `find` of a text, from the start of the place where it is found
unfoldable pub find_text : List ℕ → List ℕ → Option (List ℕ)
unfolding same_text
find_text needle [] = if length needle == 0 then some [] else none
find_text needle (b ∷ bs) =
    let rest = find_text needle bs in
    if same_text (take (length needle) (b ∷ bs)) needle then some (b ∷ bs) else rest

-- `find` of a byte, from behind it
unfoldable pub find_behind : ℕ → List ℕ → Option (List ℕ)
find_behind c [] = none
find_behind c (b ∷ bs) = let rest = find_behind c bs in if b == c then some bs else rest

-- the loops over blanks, which take newlines only where `newline` says so
unfoldable pub is_blank : Bool → ℕ → Bool
is_blank newline b = b == b' ' || b == 0x09 || (newline && b == 0x0A)

unfoldable pub skip_blanks : Bool → List ℕ → List ℕ
unfolding is_blank
skip_blanks newline [] = []
skip_blanks newline (b ∷ bs) =
    let rest = skip_blanks newline bs in if is_blank newline b then rest else b ∷ bs

unfoldable pub starts_with : ℕ → List ℕ → Bool
starts_with c [] = false
starts_with c (b ∷ bs) = b == c

-- Behind the colon of a field, with the blanks skipped.
unfoldable pub field_value : List ℕ → List ℕ → Option (List ℕ)
unfolding find_text find_behind skip_blanks
field_value obj field_name = elim (find_text field_name obj) [
  | none ↦ none
  | some found ↦ elim (find_behind b':' (drop (length field_name) found)) [
    | none ↦ none
    | some rest ↦ some (skip_blanks true rest)
  ]
]

-- Inside an object: behind the colon of its "value".
unfoldable pub inner_value : List ℕ → Option (List ℕ)
unfolding find_text find_behind skip_blanks
inner_value obj = elim (find_text (codes "\"value\"") obj) [
  | none ↦ none
  | some found ↦ elim (find_behind b':' (drop 7 found)) [
    | none ↦ none
    | some rest ↦ some (skip_blanks false rest)
  ]
]

-- the text up to a quote that is not escaped
unfoldable pub quoted : Bool → List ℕ → List ℕ
quoted escape [] = []
quoted true (c ∷ cs) = c ∷ quoted false cs
quoted false (c ∷ cs) =
    let escaped = quoted true cs in
    let rest = quoted false cs in
    if c == b'\\' then c ∷ escaped else if c == b'"' then [] else c ∷ rest

unfoldable pub quoted_at : List ℕ → List ℕ
unfolding quoted
quoted_at [] = []
quoted_at (c ∷ cs) = if c == b'"' then quoted false cs else []

unfoldable pub extract_field_str : List ℕ → List ℕ → List ℕ
unfolding field_value inner_value starts_with quoted_at
extract_field_str obj field_name = elim (field_value obj field_name) [
  | none ↦ []
  | some value ↦
      if starts_with b'{' value
      then elim (inner_value value) [ none ↦ [] | some inner ↦ quoted_at inner ]
      else quoted_at value
]

-- the digits at the front of a text, if there are any, behind a number already read
unfoldable pub read_digits : ℕ → List ℕ → ℕ
read_digits acc [] = acc
read_digits acc (c ∷ cs) =
    let rest = read_digits (acc * 10 + (c - 0x30)) cs in
    if leb 0x30 c && leb c 0x39 then rest else acc

unfoldable pub starts_with_digit : List ℕ → Bool
starts_with_digit [] = false
starts_with_digit (c ∷ cs) = leb 0x30 c && leb c 0x39

-- `std::from_chars` for an int32_t, 0 where it fails; a negative number is its two's complement
unfoldable pub from_chars : List ℕ → ℕ
unfolding read_digits starts_with_digit
from_chars [] = 0
from_chars (c ∷ cs) =
    if c == b'-'
    then (if starts_with_digit cs && leb (read_digits 0 cs) (2 ^ 31)
        then (2 ^ 32 - read_digits 0 cs) % 2 ^ 32
        else 0)
    else if starts_with_digit (c ∷ cs) && ltb (read_digits 0 (c ∷ cs)) (2 ^ 31)
    then read_digits 0 (c ∷ cs)
    else 0

unfoldable pub extract_field_int : List ℕ → List ℕ → ℕ
unfolding field_value inner_value starts_with from_chars
extract_field_int obj field_name = elim (field_value obj field_name) [
  | none ↦ 0
  | some value ↦
      if starts_with b'{' value
      then elim (inner_value value) [ none ↦ from_chars value | some inner ↦ from_chars inner ]
      else from_chars value
]

unfoldable pub extract_field_bool : List ℕ → List ℕ → Bool
unfolding field_value same_text
extract_field_bool obj field_name = elim (field_value obj field_name) [
  | none ↦ false
  | some value ↦ same_text (take 4 value) (codes "true")
]
