-- ===== src/Server/Clients/Find.antt =====
-- Which slot of the client table of include/axiom/server.hpp a search finds.
use axiom_vm.Prelude.{
  ℕ, zero, suc, ◌<◌, ◌≡◌, ◌≢◌, refl, ap, subst, ◌⊎◌, inl, inr, Bool, true, false, Option, none,
  some, List, [], ◌∷◌, arith, ◌==◌, length, Bool-cases, Option-cases, ==→eq,
}
use axiom_vm.Server.Slot.{ClientSlot}
use axiom_vm.Server.Clients.{is_free, has_fd, find_slot, slot_at, no_slot}

pub find_slot-some :
    (test : ClientSlot → Bool) (clients : List ClientSlot) (i : ℕ)
    → find_slot test clients ≡ some i
    → (test (slot_at clients i) ≡ true) × (i < length clients)
unfolding find_slot
find_slot-some test [] i h = cc
find_slot-some test (slot ∷ slots) i h = elim (Bool-cases (test slot)) [
  | inl e ↦
      let h' = rw (find_slot, e) at h in
      let first : 0 ≡ i = cc (h') in
      subst (λ k. (test (slot_at (slot ∷ slots) k) ≡ true) × (k < length (slot ∷ slots))) first
        (e, omega arith)
  | inr e ↦ elim (Option-cases (find_slot test slots)) [
    | inl f ↦ let h' = rw (find_slot, e, f) at h in cc (h')
    | inr (k, f) ↦
        let h' = rw (find_slot, e, f) at h in
        let next : suc k ≡ i = cc (h') in
        let (holds, inside) = find_slot-some test slots k f in
        subst (λ k. (test (slot_at (slot ∷ slots) k) ≡ true) × (k < length (slot ∷ slots))) next
          (holds, omega arith)
  ]
]

pub find_slot-none :
    (test : ClientSlot → Bool) (clients : List ClientSlot) (i : ℕ)
    → find_slot test clients ≡ none
    → (i < length clients) ⊎ (test no_slot ≡ false)
    → test (slot_at clients i) ≡ false
unfolding find_slot
find_slot-none test [] i h (inl inside) = absurd (omega arith)
find_slot-none test [] i h (inr n) = n
find_slot-none test (slot ∷ slots) zero h n = elim (Bool-cases (test slot)) [
  | inl e ↦ let h' = rw (find_slot, e) at h in cc (h')
  | inr e ↦ e
]
find_slot-none test (slot ∷ slots) (suc i) h n = elim (Bool-cases (test slot)) [
  | inl e ↦ let h' = rw (find_slot, e) at h in cc (h')
  | inr e ↦ elim (Option-cases (find_slot test slots)) [
    | inl f ↦
        find_slot-none test slots i f (elim n [ inl inside ↦ inl (omega arith) | inr g ↦ inr g ])
    | inr (k, f) ↦ let h' = rw (find_slot, e, f) at h in cc (h')
  ]
]

pub is_free-none : (slot : ClientSlot) → is_free slot ≡ true → slot.fd ≡ none
is_free-none slot h = at_fd slot.fd h
  where
    at_fd : (fd : Option ℕ) → (elim fd [ none ↦ true | some _ ↦ false ]) ≡ true → fd ≡ none
    at_fd none h = refl
    at_fd (some d) h = cc

pub has_fd-some : (fd : ℕ) (slot : ClientSlot) → has_fd fd slot ≡ true → slot.fd ≡ some fd
has_fd-some fd slot h = at_fd slot.fd h
  where
    at_fd : (o : Option ℕ) → (elim o [ none ↦ false | some d ↦ d == fd ]) ≡ true → o ≡ some fd
    at_fd none h = cc
    at_fd (some d) h = ap some (==→eq d fd h)

pub has_fd-not : (fd : ℕ) (slot : ClientSlot) → has_fd fd slot ≡ false → slot.fd ≢ some fd
has_fd-not fd slot h e = at_fd slot.fd h e
  where
    at_fd : (o : Option ℕ) → (elim o [ none ↦ false | some d ↦ d == fd ]) ≡ false → o ≢ some fd
    at_fd none h e = cc
    at_fd (some d) h e = let same : d ≡ fd = cc (e) in absurd (ground arith)
