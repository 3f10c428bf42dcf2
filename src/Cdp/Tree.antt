-- ===== src/Cdp/Tree.antt =====
-- `filter_and_format` of include/axiom/cdp.hpp.
use axiom_vm.Prelude.{
  ℕ, zero, suc, ◌+◌, ◌-◌, Bool, true, false, not, ◌||◌, ◌&&◌, Option, none, some, List, [], ◌∷◌,
  ◌++◌, if◌then◌else◌, ltb, ◌==◌, length, set, replicate, codes, same_text,
}
use axiom_vm.Common.{Result, ok, err, protocol_error}
use axiom_vm.Diff.{decimal}
use axiom_vm.Cdp.{
  is_actionable_role, is_layout_role, find_text, find_behind, extract_field_str, extract_field_int,
  extract_field_bool,
}

-- `MAX_AX_NODES` and `MAX_HANDLES`
abbrev pub max_ax_nodes : ℕ
max_ax_nodes = 256

abbrev pub max_handles : ℕ
max_handles = 256

-- `AXNode`
pub record AxNode : Type 0 where
  pub handle : ℕ
  pub backend_dom_node_id : ℕ
  pub role : List ℕ
  pub name : List ℕ
  pub value : List ℕ
  pub description : List ℕ
  pub heading_level : ℕ
  pub actionable : Bool
  pub focused : Bool
  pub disabled : Bool

-- The outputs of the filter and its running handle.
pub record Filtered : Type 0 where
  pub nodes : List AxNode
  pub handle_map : List ℕ
  pub current_handle : ℕ
  pub text : List ℕ

-- the scan for the end of a node: its state after a byte outside an escape, and whether it ends
unfoldable pub scan_byte : ℕ → Bool → ℕ → ℕ × Bool × Bool × Bool
scan_byte depth in_str c =
    if c == b'\\'
    then (depth, in_str, true, false)
    else if c == b'"'
    then (depth, not in_str, false, false)
    else if in_str
    then (depth, in_str, false, false)
    else if c == b'{'
    then (depth + 1, in_str, false, false)
    else if c == b'}'
    then (depth - 1, in_str, false, depth - 1 == 0)
    else (depth, in_str, false, false)

-- the node at the front of a text, and what follows it
unfoldable pub take_node : ℕ → Bool → Bool → List ℕ → List ℕ × List ℕ
unfolding scan_byte
take_node depth in_str esc [] = ([], [])
take_node depth in_str true (c ∷ cs) =
    let (node, rest) = take_node depth in_str false cs in (c ∷ node, rest)
take_node depth in_str false (c ∷ cs) =
    let (depth', in_str', esc', ends) = scan_byte depth in_str c in
    let (node, rest) = take_node depth' in_str' esc' cs in
    if ends then (c ∷ [], cs) else (c ∷ node, rest)

-- the loop to the next '{'; none at a ']' or at the end
unfoldable pub next_node : List ℕ → Option (List ℕ)
next_node [] = none
next_node (c ∷ cs) =
    let rest = next_node cs in if c == b'{' then some (c ∷ cs) else if c == b']' then none else rest

unfoldable pub append_to_buf : ℕ → List ℕ → List ℕ → List ℕ
append_to_buf size text str = if ltb size (length text + length str) then text else text ++ str

-- the calls in a row, each of which may find no room
unfoldable pub append_all : ℕ → List ℕ → List (List ℕ) → List ℕ
unfolding append_to_buf
append_all size text [] = text
append_all size text (str ∷ strs) = append_all size (append_to_buf size text str) strs

-- Pieces that are there only around a text that is not empty.
unfoldable pub around : List ℕ → List ℕ → List ℕ → List (List ℕ)
around before str behind = if length str == 0 then [] else before ∷ str ∷ behind ∷ []

-- What is appended for a node, piece by piece.
unfoldable pub pieces : AxNode → List (List ℕ)
unfolding around
pieces node =
    if node.actionable
    then (codes "[@" ∷ decimal node.handle ∷ codes "] " ∷ node.role ∷ [])
      ++ (around (codes " \"") node.name (codes "\"")
          ++ (around (codes " (value=\"") node.value (codes "\")")
              ++ (around (codes " (desc=\"") node.description (codes "\")") ++ (codes "\n" ∷ []))))
    else if same_text node.role (codes "heading")
    then codes "[heading:"
      ∷ decimal node.heading_level
      ∷ codes "] \""
      ∷ node.name
      ∷ codes "\"\n"
      ∷ []
    else around (codes "text: \"") node.name (codes "\"\n")

-- a node before has the text as its name or value
unfoldable pub is_duplicate : List AxNode → List ℕ → Bool
unfolding same_text
is_duplicate [] name = false
is_duplicate (n ∷ ns) name =
    let rest = is_duplicate ns name in
    if same_text n.name name || same_text n.value name then true else rest

unfoldable pub is_skipped_text : List AxNode → List ℕ → List ℕ → Bool
unfolding is_duplicate
is_skipped_text nodes role name =
    same_text role (codes "StaticText") && (length name == 0 || is_duplicate nodes name)

unfoldable pub heading_of : List ℕ → List ℕ → ℕ
heading_of role node_json =
    if same_text role (codes "heading")
    then (let level = extract_field_int node_json (codes "\"level\"") in
        if level == 0 then 1 else level)
    else 0

-- The node of a JSON object, before it has a handle.
unfoldable pub node_of : List ℕ → AxNode
unfolding extract_field_str extract_field_int extract_field_bool is_actionable_role heading_of
node_of node_json =
    let role = extract_field_str node_json (codes "\"role\"") in
    record {
      handle = 0;
      backend_dom_node_id = extract_field_int node_json (codes "\"backendDOMNodeId\"");
      role = role;
      name = extract_field_str node_json (codes "\"name\"");
      value = extract_field_str node_json (codes "\"value\"");
      description = extract_field_str node_json (codes "\"description\"");
      heading_level = heading_of role node_json;
      actionable = is_actionable_role role;
      focused = extract_field_bool node_json (codes "\"focused\"");
      disabled = extract_field_bool node_json (codes "\"disabled\"");
    }

-- A handle for an actionable node, where one is left.
unfoldable pub with_handle : AxNode → Filtered → AxNode × Filtered
with_handle node f =
    if node.actionable
      && (ltb (f.current_handle + 1) max_handles
          && ltb (f.current_handle + 1) (length f.handle_map))
    then (
      record node { handle = f.current_handle + 1 },
      record f {
        current_handle = f.current_handle + 1;
        handle_map = set f.handle_map (f.current_handle + 1) node.backend_dom_node_id;
      },
    )
    else (node, f)

-- `push_back`, and the text where it succeeds; the flag says that the loop breaks
unfoldable pub push_node : ℕ → AxNode × Filtered → Filtered × Bool
unfolding pieces append_all
push_node size (node, f) =
    if ltb (length f.nodes) max_ax_nodes
    then (
      record f { nodes = f.nodes ++ (node ∷ []); text = append_all size f.text (pieces node) },
      false,
    )
    else (f, true)

-- one round of the loop for a node's text
unfoldable pub add_node : ℕ → List ℕ → Filtered → Filtered × Bool
unfolding node_of is_layout_role is_skipped_text with_handle push_node
add_node size node_json f =
    let node = node_of node_json in
    if extract_field_bool node_json (codes "\"ignored\"")
      || (is_layout_role node.role || is_skipped_text f.nodes node.role node.name)
    then (f, false)
    else push_node size (with_handle node f)

-- the loop, with fuel for the bytes that are left
unfoldable pub nodes_loop : ℕ → ℕ → List ℕ → Filtered → Filtered
unfolding next_node take_node add_node
nodes_loop size zero json f = f
nodes_loop size (suc fuel) json f = elim (next_node json) [
  | none ↦ f
  | some at ↦
      let (node_json, rest) = take_node 0 false false at in
      let (f', breaks) = add_node size node_json f in
      let further = nodes_loop size fuel rest f' in if breaks then f' else further
]

-- The nodes, the text in a buffer of `size` bytes, and the handle map, which is cleared first.
unfoldable pub filter_and_format : ℕ → List ℕ → ℕ → Result Filtered
unfolding nodes_loop
filter_and_format size json handles = elim (find_text (codes "\"nodes\"") json) [
  | none ↦ err protocol_error
  | some found ↦ elim (find_behind b'[' found) [
    | none ↦ err protocol_error
    | some rest ↦ ok (
        nodes_loop size (suc (length rest)) rest
          (record { nodes = []; handle_map = replicate handles 0; current_handle = 0; text = [] }))
  ]
]
