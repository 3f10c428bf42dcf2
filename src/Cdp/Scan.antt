-- ===== src/Cdp/Scan.antt =====
-- The loop over the nodes of include/axiom/cdp.hpp ends: each round leaves less of the text.
use axiom_vm.Prelude.{
  ℕ, zero, suc, ◌≤◌, ◌<◌, ◌≡◌, ap, sym, ◌∙◌, Bool, true, false, some, List, [], ◌∷◌, arith,
  if◌then◌else◌, ◌==◌, length, Bool-cases, Option-cases, inl, inr,
}
use axiom_vm.Cdp.Tree.{Filtered, scan_byte, take_node, next_node, add_node, nodes_loop}

take_node-le :
    (depth : ℕ) (in_str esc : Bool) (json : List ℕ)
    → length (take_node depth in_str esc json).1 ≤ length json
unfolding take_node
take_node-le depth in_str esc [] = omega arith
take_node-le depth in_str true (c ∷ cs) = omega (arith, take_node-le depth in_str false cs)
take_node-le depth in_str false (c ∷ cs) =
    let (depth', in_str', esc', ends) = scan_byte depth in_str c in
    elim (Bool-cases ends) [
      | inl e ↦ rw (take_node, e) (omega arith)
      | inr e ↦ rw (take_node, e) (omega (arith, take_node-le depth' in_str' esc' cs))
    ]

next_node-starts :
    (json at : List ℕ)
    → next_node json ≡ some at
    → (cs : List ℕ) × (at ≡ b'{' ∷ cs) × (length at ≤ length json)
unfolding next_node
next_node-starts [] at h = cc
next_node-starts (c ∷ cs) at h = elim (Bool-cases (c == b'{')) [
  | inl e ↦
      let h' = rw (next_node, e) at h in
      let same : c ∷ cs ≡ at = cc (h') in
      let brace : c ≡ b'{' = ground arith in
      (cs, sym same ∙ ap (λ b. b ∷ cs) brace, omega (arith, ap length same))
  | inr e ↦ elim (Bool-cases (c == b']')) [
    | inl f ↦ let h' = rw (next_node, e, f) at h in cc (h')
    | inr f ↦
        let h' = rw (next_node, e, f) at h in
        let (rest, starts, short) = next_node-starts cs at h' in (rest, starts, omega arith)
  ]
]

-- A round takes at least the brace that it starts at.
round_shorter :
    (json at : List ℕ)
    → next_node json ≡ some at
    → length (take_node 0 false false at).1 < length json
unfolding take_node scan_byte
round_shorter json at h =
    let (cs, starts, short) = next_node-starts json at h in
    let one : length at ≡ suc (length cs) = ap length starts in
    let rest = ap (λ (t : List ℕ). length (take_node 0 false false t).1) starts in
    omega (arith, rest, take_node-le 1 false false cs)

-- With any two fuels above the length of the text the loop over the nodes gives the same outputs.
pub nodes_loop-fuel :
    (size n m : ℕ) (json : List ℕ) (f : Filtered)
    → length json < n
    → length json < m
    → nodes_loop size n json f ≡ nodes_loop size m json f
unfolding nodes_loop
nodes_loop-fuel size zero m json f hn hm = absurd (omega arith)
nodes_loop-fuel size (suc n) zero json f hn hm = absurd (omega arith)
nodes_loop-fuel size (suc n) (suc m) json f hn hm = elim (Option-cases (next_node json)) [
  | inl e ↦ rw (nodes_loop, e)
  | inr (at, e) ↦
      let step = add_node size (take_node 0 false false at).0 f in
      let shorter = round_shorter json at e in
      let go_on =
        nodes_loop-fuel size n m (take_node 0 false false at).1 step.0 (omega arith)
          (omega arith) in
      rw (nodes_loop, e) (ap (λ (g : Filtered). if step.1 then step.0 else g) go_on)
]
