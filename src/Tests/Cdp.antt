-- ===== src/Tests/Cdp.antt =====
-- A page with two nodes through include/axiom/cdp.hpp. Where a node's role stands first, its value is
-- the role.
use axiom_vm.Prelude.{
  ◌⊎◌, ℕ, ◌≤◌, ◌≡◌, refl, true, false, Option, none, some, List, [], ◌∷◌, ◌++◌, arith, length,
  replicate, All, codes,
}
use axiom_vm.Common.{ok}
use axiom_vm.Diff.{digits}
use axiom_vm.Server.Handlers.Files.{c_string}
use axiom_vm.Cdp.Tree.{AxNode, Filtered, nodes_loop, filter_and_format}
use axiom_vm.Cdp.Handles.{IsFiltered, AllShown, filter_and_format-IsFiltered}
use axiom_vm.Cdp.Scan.{nodes_loop-fuel}
use axiom_vm.Cdp.Bridge.{
  Bridge, closed, killed, waited, stop, get_backend_node_id, set_handle_mapping, move_from,
  page_target,
}
use axiom_vm.Cdp.Commands.{Spawn, get_axtree, printed}
use axiom_vm.Cdp.Clicks.{Reaches, get_axtree-Reaches, IsHeld, IsRefused, get_axtree-IsRefused}

abbrev page : List ℕ
page =
    codes
      "{\"id\":1,\"nodes\":[{\"role\":{\"value\":\"button\"},\"name\":{\"value\":\"Go\"},\"backendDOMNodeId\":7},"
    ++ codes "{\"role\":{\"value\":\"StaticText\"},\"name\":{\"value\":\"Go\"}}]}"

abbrev nothing : ℕ → List ℕ
nothing n = replicate n 0

abbrev spawn : Spawn
spawn = record { has_chrome = false; to_chrome = none; from_chrome = none; fork = none }

abbrev bytes : List ℕ → List (Option ℕ)
bytes [] = some 0 ∷ []
bytes (c ∷ cs) = some c ∷ bytes cs

abbrev bridge : Bridge
bridge = record {
  to_chrome_fd = some 3;
  from_chrome_fd = some 4;
  child_pid = some 9;
  next_req_id = 1;
  started = true;
  session_id = codes "S";
  handle_map = 0 ∷ 0 ∷ 55 ∷ 0 ∷ [];
  writes = 1000 ∷ 1 ∷ [];
  incoming = bytes page;
  sent = [];
  calls = [];
}

abbrev button : AxNode
button = record {
  handle = 1;
  backend_dom_node_id = 7;
  role = codes "button";
  name = codes "Go";
  value = codes "button";
  description = [];
  heading_level = 0;
  actionable = true;
  focused = false;
  disabled = false;
}

abbrev shown : Filtered
shown = record {
  nodes = button ∷ [];
  handle_map = 0 ∷ 7 ∷ 0 ∷ 0 ∷ [];
  current_handle = 1;
  text = codes "[@1] button \"Go\" (value=\"button\")\n";
}

page_filtered : filter_and_format 64 page 4 ≡ ok shown
unfolding filter_and_format digits
page_filtered = refl

filter_and_format-IsFiltered_example :
    (count : ℕ) × IsFiltered 64 4 count shown × AllShown count shown
filter_and_format-IsFiltered_example = filter_and_format-IsFiltered 64 4 page shown page_filtered

abbrev blank : Filtered
blank = record { nodes = []; handle_map = replicate 4 0; current_handle = 0; text = [] }

nodes_loop-fuel_example :
    nodes_loop 64 9 (codes "{\"a\":1}") blank ≡ nodes_loop 64 20 (codes "{\"a\":1}") blank
nodes_loop-fuel_example =
    nodes_loop-fuel 64 9 20 (codes "{\"a\":1}") blank (omega arith) (omega arith)

abbrev read : Bridge
read = (get_axtree nothing spawn 64 bridge).1

page_read : get_axtree nothing spawn 64 bridge ≡ (ok shown, read)
unfolding get_axtree digits c_string
page_read = refl

get_axtree-Reaches_example :
    All (Reaches nothing read) shown.nodes × (length shown.text ≤ 64) × (length shown.nodes ≤ 256)
get_axtree-Reaches_example = get_axtree-Reaches nothing spawn 64 bridge read shown page_read

-- Handle 2 was mapped before the tree was fetched.
get_axtree-IsRefused_example : IsHeld 2 shown.nodes ⊎ IsRefused nothing 2 read
get_axtree-IsRefused_example =
    get_axtree-IsRefused nothing spawn 64 bridge read shown 2 page_read (omega arith)

stopped : (stop bridge).calls ≡ closed 3 ∷ closed 4 ∷ killed 9 ∷ waited 9 ∷ []
unfolding stop
stopped = refl

page_found :
    page_target
      (codes "{\"targetId\":\"A\",\"type\":\"tab\"},{\"targetId\":\"B\",\"type\":\"page\"}")
    ≡ codes "B"
unfolding page_target
page_found = refl

cut : printed nothing 4 (codes "abcdef") ≡ codes "abc" ++ (0 ∷ 0 ∷ 0 ∷ [])
unfolding printed
cut = refl

mapped : get_backend_node_id 2 (set_handle_mapping 2 55 bridge) ≡ 55
unfolding get_backend_node_id set_handle_mapping
mapped = refl

moved : (move_from (set_handle_mapping 2 55 bridge) bridge).0.handle_map ≡ 0 ∷ 0 ∷ 55 ∷ 0 ∷ []
unfolding move_from set_handle_mapping
moved = refl
