-- ===== src/Cdp/Clicks.antt =====
-- From the tree that a client is shown to the element that its click reaches, in include/axiom/cdp.hpp.
use axiom_vm.Prelude.{
  le_value, IsIn, IsIn-cases, first, later, IsIn-append_left, IsIn-append_right, ==→eq, zero, suc,
  ◌++◌, refl, sym, ap, ◌∙◌, Bool-cases, ℕ, ◌-◌, ◌≤◌, ◌<◌, ◌≡◌, ◌≢◌, subst, ◌⊎◌, inl, inr, false,
  ◌||◌, List, [], ◌∷◌, arith, leb, ◌==◌, length, get_or, All,
}
use axiom_vm.Common.{Result, ok, err, Result-cases, invalid_argument}
use axiom_vm.Cdp.Tree.{AxNode, Filtered, filter_and_format}
use axiom_vm.Cdp.Handles.{
  AllShown, handles_of, up_to, IsFiltered, IsShown, filter_and_format-IsFiltered,
}
use axiom_vm.Cdp.Bridge.{Bridge, M, ◌>>=◌}
use axiom_vm.Cdp.Commands.{
  Spawn, with_element, click, click_element, type_text, type_into, get_axtree, filter_into,
  ensure_started, full_tree,
}

-- Inversion of a chain of operations that succeeds.
>>=-eq-ok :
    {A B : Type 0} (m : M A) (k : A → M B) (b b' : Bridge) (y : B)
    → (m >>= k) b ≡ (ok y, b')
    → (x : A) × (b1 : Bridge) × (k x b1 ≡ (ok y, b'))
>>=-eq-ok {A} {B} m k b b' y h = split (m b) h
  where
    split :
        (p : Result A × Bridge)
        → (let (r, b1) = p in elim r [ ok a ↦ k a b1 | err e ↦ (err e, b1) ]) ≡ (ok y, b')
        → (x : A) × (b1 : Bridge) × (k x b1 ≡ (ok y, b'))
    split (ok x, b1) h = (x, b1, h)
    split (err x, b1) h = cc (h)

-- An element of a list, whatever stands behind its end.
get_or-inside : (xs : List ℕ) (i d e : ℕ) → i < length xs → get_or xs i d ≡ get_or xs i e
get_or-inside [] i d e h = absurd (omega arith)
get_or-inside (x ∷ xs) zero d e h = refl
get_or-inside (x ∷ xs) (suc i) d e h = get_or-inside xs i d e (omega arith)

IsIn-up_to : (h n : ℕ) → h ≢ 0 → h ≤ n → IsIn h (up_to n)
IsIn-up_to h zero some_handle low = absurd (some_handle (omega arith))
IsIn-up_to h (suc n) some_handle low = elim (Bool-cases (h == suc n)) [
  | inl e ↦
      subst (λ k. IsIn k (up_to n ++ (suc n ∷ []))) (sym (==→eq h (suc n) e))
        (IsIn-append_right (up_to n) first)
  | inr e ↦
      let below : h ≤ n = ground arith in
      IsIn-append_left (suc n ∷ []) (IsIn-up_to h n some_handle below)
]

-- A handle of some nodes is the handle of one of them.
abbrev pub IsHeld : ℕ → List AxNode → Type 0
IsHeld h ns = (n : AxNode) × IsIn n ns × (n.handle ≡ h)

handles_of-IsHeld : (h : ℕ) (ns : List AxNode) → IsIn h (handles_of ns) → IsHeld h ns
handles_of-IsHeld h [] i = elim i [ ]
handles_of-IsHeld h (n ∷ ns) i = elim (Bool-cases (n.handle == 0)) [
  | inl e ↦ let i' = rw e at i in let (m, j, same) = handles_of-IsHeld h ns i' in (m, later j, same)
  | inr e ↦
      let i' = rw e at i in
      elim (IsIn-cases i') [
        | inl same ↦ (n, first, sym same)
        | inr j ↦ let (m, k, same) = handles_of-IsHeld h ns j in (m, later k, same)
      ]
]

module _ (beyond : ℕ → List ℕ) where
  -- A click and typing on a handle are refused, with nothing sent and the bridge as it was.
  abbrev pub IsRefused : ℕ → Bridge → Type 0
  IsRefused handle b =
      (click beyond handle b ≡ (err invalid_argument, b))
      × ((text : List ℕ) → type_text beyond handle text b ≡ (err invalid_argument, b))

  with_element-refused :
      (handle : ℕ) (act : ℕ → M (Unit {0})) (b : Bridge)
      → (handle ≡ 0) ⊎ ((length b.handle_map ≤ handle) ⊎ (get_or b.handle_map handle 0 ≡ 0))
      → with_element beyond handle act b ≡ (err invalid_argument, b)
  unfolding with_element
  with_element-refused handle act b h =
      elim (Bool-cases (handle == 0 || leb (length b.handle_map) handle)) [
        | inl e ↦ rw (with_element, e)
        | inr e ↦
            let inside : handle < length b.handle_map = ground arith in
            let some_handle : handle ≢ 0 = λ g. absurd (ground arith) in
            let unmapped : get_or b.handle_map handle 0 ≡ 0 = elim h [
              | inl g ↦ absurd (some_handle g)
              | inr g ↦ elim g [ inl k ↦ absurd (omega arith) | inr k ↦ k ]
            ] in
            let there : get_or b.handle_map handle (le_value (beyond handle)) ≡ 0 =
              get_or-inside b.handle_map handle (le_value (beyond handle)) 0 inside ∙ unmapped in
            rw (with_element, e, there)
      ]

  with_element-given :
      (handle backend_id : ℕ) (act : ℕ → M (Unit {0})) (b : Bridge)
      → handle ≢ 0
      → handle < length b.handle_map
      → get_or b.handle_map handle 0 ≡ backend_id
      → backend_id ≢ 0
      → with_element beyond handle act b ≡ act backend_id b
  unfolding with_element
  with_element-given handle backend_id act b h0 h1 e hb =
      let open_to : (handle == 0 || leb (length b.handle_map) handle) ≡ false = ground arith in
      let there : get_or b.handle_map handle (le_value (beyond handle)) ≡ backend_id =
        get_or-inside b.handle_map handle (le_value (beyond handle)) 0 h1 ∙ e in
      let known : (backend_id == 0) ≡ false = ground arith in
      rw (with_element, open_to, there, known)

  with_element-unmapped :
      (handle : ℕ) (b : Bridge)
      → (handle ≡ 0) ⊎ ((length b.handle_map ≤ handle) ⊎ (get_or b.handle_map handle 0 ≡ 0))
      → IsRefused handle b
  unfolding click type_text
  with_element-unmapped handle b h = (
    with_element-refused handle (click_element beyond) b h,
    λ text. with_element-refused handle (type_into beyond text) b h,
  )

  -- A node's handle, if it has one and the page gave its element, reaches that element.
  abbrev pub Reaches : Bridge → AxNode → Type 0
  Reaches b n =
      n.handle ≢ 0
      → n.backend_dom_node_id ≢ 0
      → (click beyond n.handle b ≡ click_element beyond n.backend_dom_node_id b)
        × ((text : List ℕ)
            → type_text beyond n.handle text b ≡ type_into beyond text n.backend_dom_node_id b)

  all_reach :
      (b : Bridge) (current : ℕ) (ns : List AxNode)
      → current ≤ length b.handle_map - 1
      → All (IsShown b.handle_map) ns
      → All (λ n. n.handle ≤ current) ns
      → All (Reaches b) ns
  unfolding click type_text
  all_reach b current [] low hs gs = tt
  all_reach b current (n ∷ ns) low (h, hs) (g, gs) = (
    λ some_handle known.
        let inside : n.handle < length b.handle_map = omega arith in
        (
          with_element-given n.handle n.backend_dom_node_id (click_element beyond) b some_handle
              inside (h.mapped some_handle) known,
          λ text.
              with_element-given n.handle n.backend_dom_node_id (type_into beyond text) b
                some_handle inside (h.mapped some_handle) known,
        ),
    all_reach b current ns low hs gs,
  )

  -- What the bridge and the outputs have in common after a tree was filtered.
  IsFetched : ℕ → Bridge → Filtered → Type 0
  IsFetched size b f =
      (handles count : ℕ) × IsFiltered size handles count f
      × AllShown count f
      × (f.handle_map ≡ b.handle_map)

  filter_into-IsFetched :
      (size : ℕ) (json : List ℕ) (b b' : Bridge) (f : Filtered)
      → filter_into beyond size json b ≡ (ok f, b')
      → IsFetched size b' f
  unfolding filter_into IsFetched
  filter_into-IsFetched size json b b' f h =
      elim (Result-cases (filter_and_format size json (length b.handle_map))) [
        | inr (x, e) ↦ let h' = rw (filter_into, e) at h in cc (h')
        | inl (f', e) ↦
            let h' = rw (filter_into, e) at h in
            let same : f' ≡ f = cc (h') in
            let after : record b { handle_map = f'.handle_map } ≡ b' = cc (h') in
            let (count, t, all) =
              filter_and_format-IsFiltered size (length b.handle_map) json f' e in
            subst (λ x. IsFetched size b' x) same
              (length b.handle_map, count, t, all, ap (λ (x : Bridge). x.handle_map) after)
      ]

  get_axtree-IsFetched :
      (s : Spawn) (size : ℕ) (b b' : Bridge) (f : Filtered)
      → get_axtree beyond s size b ≡ (ok f, b')
      → IsFetched size b' f
  unfolding get_axtree
  get_axtree-IsFetched s size b b' f h =
      let read_and_filter = λ (x : Unit {0}). full_tree beyond >>= filter_into beyond size in
      let (_, b1, h1) = >>=-eq-ok (ensure_started beyond s) read_and_filter b b' f h in
      let (json, b2, h2) = >>=-eq-ok (full_tree beyond) (filter_into beyond size) b1 b' f h1 in
      filter_into-IsFetched size json b2 b' f h2

  -- After the tree of a page was filtered, the handle of every node that is shown clicks and types
  -- into the element that the page gave for that node; the text fits its buffer and there are at most
  -- 256 nodes.
  pub get_axtree-Reaches :
      (s : Spawn) (size : ℕ) (b b' : Bridge) (f : Filtered)
      → get_axtree beyond s size b ≡ (ok f, b')
      → All (Reaches b') f.nodes × (length f.text ≤ size) × (length f.nodes ≤ 256)
  unfolding IsFetched
  get_axtree-Reaches s size b b' f h =
      let (handles, count, t, all, same) = get_axtree-IsFetched s size b b' f h in
      let in_map : f.current_handle ≤ length b'.handle_map - 1 =
        omega (arith, t.in_map, t.map_size, ap length same) in
      let shown = subst (λ m. All (IsShown m) f.nodes) same t.shown in
      (all_reach b' f.current_handle f.nodes in_map shown t.given, t.fits, t.few)

  -- After the tree of a page was filtered into fewer than 256 nodes, every number is the handle of a
  -- node that is shown, or a click on it and typing into it are refused, with nothing sent and the
  -- bridge as it was: no handle of an earlier tree is left.
  pub get_axtree-IsRefused :
      (s : Spawn) (size : ℕ) (b b' : Bridge) (f : Filtered) (handle : ℕ)
      → get_axtree beyond s size b ≡ (ok f, b')
      → length f.nodes < 256
      → IsHeld handle f.nodes ⊎ IsRefused handle b'
  unfolding IsFetched
  get_axtree-IsRefused s size b b' f handle h room =
      let (handles, count, t, all, same) = get_axtree-IsFetched s size b b' f h in
      elim (Bool-cases (handle == 0)) [
        | inl e ↦ inr (with_element-unmapped handle b' (inl (==→eq handle 0 e)))
        | inr e ↦
            let some_handle : handle ≢ 0 = λ g. absurd (ground arith) in
            elim (Bool-cases (leb handle f.current_handle)) [
              | inl low ↦
                  let inside : handle ≤ count = ground (arith, all room) in
                  inl (
                    handles_of-IsHeld handle f.nodes (
                      subst (IsIn handle) (sym t.numbered)
                        (IsIn-up_to handle count some_handle inside)))
              | inr high ↦
                  let above : f.current_handle < handle = ground arith in
                  let gone = ap (λ m. get_or m handle 0) (sym same) ∙ t.unmapped handle above in
                  inr (with_element-unmapped handle b' (inr (inr gone)))
            ]
      ]
