-- ===== src/Cdp/Handles.antt =====
-- What `filter_and_format` of include/axiom/cdp.hpp makes of any text: the bounds of its outputs, and
-- the handles.
use axiom_vm.Prelude.{
  ℕ, zero, suc, ◌+◌, ◌-◌, ◌≤◌, ◌<◌, ◌≡◌, ◌≢◌, refl, ap, sym, ◌∙◌, subst, ◌⊎◌, inl, inr, Bool, true,
  false, ◌||◌, ◌&&◌, List, [], ◌∷◌, ◌++◌, arith, if◌then◌else◌, ltb, ◌==◌, length, set, get_or,
  replicate, All, All-append, codes, Bool-cases, Option-cases, length-append, length-set,
  length-replicate, get_or-set_self, get_or-set_ne, append-nil, ltb→lt, ltb→le,
}
use axiom_vm.Common.{ok}
use axiom_vm.Cdp.{is_layout_role, find_text, find_behind, extract_field_bool}
use axiom_vm.Cdp.Tree.{
  AxNode, Filtered, append_to_buf, append_all, pieces, is_skipped_text, node_of, with_handle,
  push_node, add_node, next_node, take_node, nodes_loop, filter_and_format,
}

-- The handles that nodes have, in order.
abbrev pub handles_of : List AxNode → List ℕ
handles_of [] = []
handles_of (n ∷ ns) = let rest = handles_of ns in if n.handle == 0 then rest else n.handle ∷ rest

-- 1, 2, …, n
abbrev pub up_to : ℕ → List ℕ
up_to zero = []
up_to (suc n) = up_to n ++ (suc n ∷ [])

-- The node's handle stands for the element that the node is about, and only actionable nodes have
-- one; no role is layout.
pub record IsShown (handle_map : List ℕ) (n : AxNode) : Type 0 where
  pub mapped : n.handle ≢ 0 → get_or handle_map n.handle 0 ≡ n.backend_dom_node_id
  pub clickable : n.handle ≢ 0 → n.actionable ≡ true
  pub not_layout : is_layout_role n.role ≡ false

-- The outputs: the nodes that are shown have the handles 1, …, count.
pub record IsFiltered (size handles count : ℕ) (f : Filtered) : Type 0 where
  pub few : length f.nodes ≤ 256
  pub fits : length f.text ≤ size
  pub map_size : length f.handle_map ≡ handles
  pub below : f.current_handle < 256
  pub in_map : f.current_handle ≤ handles - 1
  pub numbered : handles_of f.nodes ≡ up_to count
  pub counted : count ≤ f.current_handle
  pub shown : All (IsShown f.handle_map) f.nodes
  pub given : All (λ n. n.handle ≤ f.current_handle) f.nodes
  pub unmapped : (h : ℕ) → f.current_handle < h → get_or f.handle_map h 0 ≡ 0

-- Unless the vector of nodes is full every handle up to the last is of a shown node.
abbrev pub AllShown : ℕ → Filtered → Type 0
AllShown count f = length f.nodes < 256 → count ≡ f.current_handle

get_or-replicate : (n h : ℕ) → let zeros : List ℕ = replicate n 0 in get_or zeros h 0 ≡ zero
get_or-replicate zero h = refl
get_or-replicate (suc n) zero = refl
get_or-replicate (suc n) (suc h) = get_or-replicate n h

length-append_all :
    (size : ℕ) (strs : List (List ℕ)) (text : List ℕ)
    → length text ≤ size
    → length (append_all size text strs) ≤ size
unfolding append_all append_to_buf
length-append_all size [] text h = h
length-append_all size (str ∷ strs) text h =
    length-append_all size strs (append_to_buf size text str)
      (ground (arith, length-append text str))

handles_of-append : (ns ms : List AxNode) → handles_of (ns ++ ms) ≡ handles_of ns ++ handles_of ms
handles_of-append [] ms = refl
handles_of-append (n ∷ ns) ms = elim (Bool-cases (n.handle == 0)) [
  | inl e ↦ rw e (handles_of-append ns ms)
  | inr e ↦ rw e (ap (λ hs. n.handle ∷ hs) (handles_of-append ns ms))
]

handles_of-given :
    (n : AxNode) (k : ℕ) → n.handle ≡ k + 1 → up_to k ++ handles_of (n ∷ []) ≡ up_to (k + 1)
handles_of-given n k e =
    let given : handles_of (n ∷ []) ≡ (k + 1) ∷ [] = ground arith in
    let next : k + 1 ≡ suc k = omega arith in
    ap (λ hs. up_to k ++ hs) given ∙ ap (λ j. up_to k ++ (j ∷ [])) next ∙ sym (ap up_to next)

handles_of-none : (n : AxNode) (k : ℕ) → n.handle ≡ 0 → up_to k ++ handles_of (n ∷ []) ≡ up_to k
handles_of-none n k e =
    let nothing : handles_of (n ∷ []) ≡ [] = ground arith in
    ap (λ hs. up_to k ++ hs) nothing ∙ append-nil (up_to k)

or_second : (a b c : Bool) → (a || (b || c)) ≡ false → b ≡ false
or_second true b c h = cc
or_second false true c h = cc
or_second false false c h = refl

module _ (size handles : ℕ) where
  -- One more node behind the others.
  pushed :
      (c c' : ℕ) (f : Filtered) (node : AxNode)
      → IsFiltered size handles c f
      → length f.nodes < 256
      → up_to c ++ handles_of (node ∷ []) ≡ up_to c'
      → c' ≤ f.current_handle
      → IsShown f.handle_map node
      → node.handle ≤ f.current_handle
      → IsFiltered size handles c'
          (record f { nodes = f.nodes ++ (node ∷ []); text = append_all size f.text (pieces node) })
  pushed c c' f node h room numbers counts shows gives = record {
    few = omega (arith, length-append f.nodes (node ∷ []));
    fits = length-append_all size (pieces node) f.text h.fits;
    map_size = h.map_size;
    below = h.below;
    in_map = h.in_map;
    numbered =
        handles_of-append f.nodes (node ∷ [])
        ∙ ap (λ hs. hs ++ handles_of (node ∷ [])) h.numbered
        ∙ numbers;
    counted = counts;
    shown = All-append (IsShown f.handle_map) f.nodes (node ∷ []) h.shown (shows, tt);
    given = All-append (λ n. n.handle ≤ f.current_handle) f.nodes (node ∷ []) h.given (gives, tt);
    unmapped = h.unmapped;
  }

  -- The nodes so far keep their handles when the next handle is given.
  shown-set :
      (map : List ℕ) (current v : ℕ) (ns : List AxNode)
      → All (IsShown map) ns
      → All (λ n. n.handle ≤ current) ns
      → All (IsShown (set map (current + 1) v)) ns
  shown-set map current v [] hs gs = tt
  shown-set map current v (n ∷ ns) (h, hs) (g, gs) = (
    record {
      mapped = λ some_handle.
          get_or-set_ne map (current + 1) n.handle v 0 (omega arith) ∙ h.mapped some_handle;
      clickable = h.clickable;
      not_layout = h.not_layout;
    },
    shown-set map current v ns hs gs,
  )

  given-next :
      (current : ℕ) (ns : List AxNode)
      → All (λ n. n.handle ≤ current) ns
      → All (λ n. n.handle ≤ current + 1) ns
  given-next current [] gs = tt
  given-next current (n ∷ ns) (g, gs) = (omega arith, given-next current ns gs)

  -- The state behind the giving of a handle, with its node not yet in the vector.
  with_next :
      (f : Filtered) (v : ℕ)
      → IsFiltered size handles f.current_handle f
      → f.current_handle + 1 < 256
      → f.current_handle + 1 < length f.handle_map
      → IsFiltered size handles f.current_handle (record f {
        current_handle = f.current_handle + 1;
        handle_map = set f.handle_map (f.current_handle + 1) v;
      })
  with_next f v h low inside = record {
    few = h.few;
    fits = h.fits;
    map_size = length-set f.handle_map (f.current_handle + 1) v ∙ h.map_size;
    below = low;
    in_map = omega (arith, h.map_size);
    numbered = h.numbered;
    counted = omega arith;
    shown = shown-set f.handle_map f.current_handle v f.nodes h.shown h.given;
    given = given-next f.current_handle f.nodes h.given;
    unmapped = λ k above.
        get_or-set_ne f.handle_map (f.current_handle + 1) k v 0 (omega arith)
        ∙ h.unmapped k (omega arith);
  }

  -- A round leaves a state to go on from, or breaks the loop with outputs that are as they should.
  abbrev Round : Filtered × Bool → Type 0
  Round (f, breaks) =
      ((breaks ≡ false) × IsFiltered size handles f.current_handle f)
      ⊎ ((breaks ≡ true) × ((count : ℕ) × IsFiltered size handles count f × (256 ≤ length f.nodes)))

  push_node-Round :
      (c : ℕ) (f : Filtered) (node : AxNode)
      → IsFiltered size handles c f
      → up_to c ++ handles_of (node ∷ []) ≡ up_to f.current_handle
      → IsShown f.handle_map node
      → node.handle ≤ f.current_handle
      → Round (push_node size (node, f))
  unfolding push_node
  push_node-Round c f node h numbers shows gives = elim (Bool-cases (ltb (length f.nodes) 256)) [
    | inl e ↦
        rw (push_node, e)
          (inl (
            refl,
            pushed c f.current_handle f node h (ltb→lt _ _ e) numbers (omega arith) shows gives,
          ))
    | inr e ↦ rw (push_node, e) (inr (refl, (c, h, ltb→le _ _ e)))
  ]

  with_handle-Round :
      (f : Filtered) (node : AxNode)
      → IsFiltered size handles f.current_handle f
      → node.handle ≡ 0
      → is_layout_role node.role ≡ false
      → Round (push_node size (with_handle node f))
  unfolding with_handle
  with_handle-Round f node h no_handle clean =
      elim (Bool-cases (
        node.actionable
        && (ltb (f.current_handle + 1) 256 && ltb (f.current_handle + 1) (length f.handle_map)))) [
          | inl e ↦
              let low : f.current_handle + 1 < 256 = ground arith in
              let inside : f.current_handle + 1 < length f.handle_map = ground arith in
              let acts : node.actionable ≡ true = ground arith in
              let node' : AxNode = record node { handle = f.current_handle + 1 } in
              let f' : Filtered = record f {
                current_handle = f.current_handle + 1;
                handle_map = set f.handle_map (f.current_handle + 1) node.backend_dom_node_id;
              } in
              let step : with_handle node f ≡ (node', f') = rw (with_handle, e) in
              rw step (
                push_node-Round f.current_handle f' node'
                  (with_next f node.backend_dom_node_id h low inside)
                  (handles_of-given node' f.current_handle refl)
                  (record {
                    mapped = λ some_handle.
                        get_or-set_self f.handle_map (f.current_handle + 1) node.backend_dom_node_id
                          0 inside;
                    clickable = λ some_handle. acts;
                    not_layout = clean;
                  })
                  (omega arith))
          | inr e ↦
              let step : with_handle node f ≡ (node, f) = rw (with_handle, e) in
              rw step (
                push_node-Round f.current_handle f node h
                  (handles_of-none node f.current_handle no_handle)
                  (record {
                    mapped = λ some_handle. absurd (some_handle no_handle);
                    clickable = λ some_handle. absurd (some_handle no_handle);
                    not_layout = clean;
                  })
                  (omega arith))
        ]

  add_node-Round :
      (node_json : List ℕ) (f : Filtered)
      → IsFiltered size handles f.current_handle f
      → Round (add_node size node_json f)
  unfolding add_node
  add_node-Round node_json f h =
      let node = node_of node_json in
      elim (Bool-cases (
        extract_field_bool node_json (codes "\"ignored\"")
        || (is_layout_role node.role || is_skipped_text f.nodes node.role node.name))) [
          | inl e ↦ rw (add_node, e) (inl (refl, h))
          | inr e ↦ rw (add_node, e) (with_handle-Round f node h refl (or_second _ _ _ e))
        ]

  nodes_loop-IsFiltered :
      (fuel : ℕ) (json : List ℕ) (f : Filtered)
      → IsFiltered size handles f.current_handle f
      → (count : ℕ) × IsFiltered size handles count (nodes_loop size fuel json f)
        × AllShown count (nodes_loop size fuel json f)
  unfolding nodes_loop
  nodes_loop-IsFiltered zero json f h = (f.current_handle, h, λ room. refl)
  nodes_loop-IsFiltered (suc fuel) json f h = elim (Option-cases (next_node json)) [
    | inl e ↦ rw (nodes_loop, e) (f.current_handle, h, λ room. refl)
    | inr (at, e) ↦
        let step = add_node size (take_node 0 false false at).0 f in
        let go_on = nodes_loop-IsFiltered fuel (take_node 0 false false at).1 step.0 in
        rw (nodes_loop, e)
          (elim (add_node-Round (take_node 0 false false at).0 f h) [
            | inl (b, h') ↦ rw b (go_on h')
            | inr (b, (count, h', full)) ↦
                rw b (count, h', λ room. absurd (omega (arith, room, full)))
          ])
  ]

  -- A tree that `filter_and_format` makes of any text has at most 256 nodes and a text that fits the
  -- buffer; the handles of its nodes are 1, 2, … in order, all below 256; the map keeps its size, and
  -- takes the handle of each node that has one to the node's element; only actionable nodes have
  -- handles, and no node has a layout role. The map has nothing above the last handle that was given,
  -- which is the handle of a shown node unless there are 256 nodes.
  pub filter_and_format-IsFiltered :
      (json : List ℕ) (f : Filtered)
      → filter_and_format size json handles ≡ ok f
      → (count : ℕ) × IsFiltered size handles count f × AllShown count f
  unfolding filter_and_format
  filter_and_format-IsFiltered json f h = elim (Option-cases (find_text (codes "\"nodes\"") json)) [
    | inl e ↦ let h' = rw (filter_and_format, e) at h in cc (h')
    | inr (found, e) ↦ elim (Option-cases (find_behind b'[' found)) [
      | inl g ↦ let h' = rw (filter_and_format, e, g) at h in cc (h')
      | inr (rest, g) ↦
          let h' = rw (filter_and_format, e, g) at h in
          let start : Filtered = record {
            nodes = [];
            handle_map = replicate handles 0;
            current_handle = 0;
            text = [];
          } in
          let same : nodes_loop size (suc (length rest)) rest start ≡ f = cc (h') in
          subst (λ k. (count : ℕ) × IsFiltered size handles count k × AllShown count k) same
            (nodes_loop-IsFiltered (suc (length rest)) rest start (record {
              few = omega arith;
              fits = omega arith;
              map_size = length-replicate handles 0;
              below = omega arith;
              in_map = omega arith;
              numbered = refl;
              counted = omega arith;
              shown = tt;
              given = tt;
              unmapped = λ h above. get_or-replicate handles h;
            }))
    ]
  ]
