-- ===== src/Diff/Names.antt =====
-- The names in the directories that include/axiom/diff.hpp scans, and the paths below them.
use axiom_vm.Prelude.{
  ℕ, ◌≡◌, ◌≢◌, refl, ap₂, sym, ◌∙◌, ◌⊎◌, inl, inr, List, [], ◌∷◌, ◌++◌, All, append_assoc,
}
use axiom_vm.Diff.Scan.{Listing, unreadable, listed, Entries, no_more, entry, full_path}

-- A name in a directory has no slash.
abbrev pub IsName : List ℕ → Type 0
IsName name = All (λ c. c ≢ b'/') name

-- The names of a directory are names, and no two are the same, in every directory of the tree.
abbrev mutual
  pub IsDirectory : Listing → Type 0
  IsDirectory unreadable = Unit
  IsDirectory (listed fd es) = AreEntries es

  pub AreEntries : Entries → Type 0
  AreEntries no_more = Unit
  AreEntries (entry d_name st below es) =
      IsName d_name × (IsNew d_name es × (IsDirectory below × AreEntries es))

  pub IsNew : List ℕ → Entries → Type 0
  IsNew name no_more = Unit
  IsNew name (entry d_name st below es) = (name ≢ d_name) × IsNew name es

-- What follows a name in a path: nothing, or a slash.
abbrev pub IsEnding : List ℕ → Type 0
IsEnding t = (t ≡ []) ⊎ ((q : List ℕ) × (t ≡ b'/' ∷ q))

-- A path is that of a name, or stands below it.
pub record IsAt (full path : List ℕ) : Type 0 where
  pub ending : List ℕ
  pub is_ending : IsEnding ending
  pub splits : path ≡ full ++ ending

same_name :
    (n m t u : List ℕ) → IsName n → IsName m → IsEnding t → IsEnding u → n ++ t ≡ m ++ u → n ≡ m
same_name [] [] t u hn hm et eu h = refl
same_name [] (c ∷ m) t u hn (d, hm) (inl e) eu h = let g = sym e ∙ h in cc (g)
same_name [] (c ∷ m) t u hn (d, hm) (inr (q, e)) eu h = let g = sym e ∙ h in absurd (d (cc (g)))
same_name (c ∷ n) [] t u (d, hn) hm et (inl e) h = let g = h ∙ e in cc (g)
same_name (c ∷ n) [] t u (d, hn) hm et (inr (q, e)) h = let g = h ∙ e in absurd (d (cc (g)))
same_name (c ∷ n) (d ∷ m) t u (_, hn) (_, hm) et eu h =
    let same : c ≡ d = cc (h) in
    let rest : n ++ t ≡ m ++ u = cc (h) in ap₂ ◌∷◌ same (same_name n m t u hn hm et eu rest)

-- The same path at two names of a directory: the names are the same.
cancel : (p xs ys : List ℕ) → p ++ xs ≡ p ++ ys → xs ≡ ys
cancel [] xs ys h = h
cancel (c ∷ p) xs ys h = let rest : p ++ xs ≡ p ++ ys = cc (h) in cancel p xs ys rest

pub IsAt-same :
    (dir n m path : List ℕ)
    → IsName n
    → IsName m
    → IsAt (full_path dir n) path
    → IsAt (full_path dir m) path
    → n ≡ m
IsAt-same dir n m path hn hm a b =
    let h =
      sym (append_assoc dir (b'/' ∷ n) a.ending)
      ∙ sym a.splits
      ∙ b.splits
      ∙ append_assoc dir (b'/' ∷ m) b.ending in
    let g = cancel dir (b'/' ∷ (n ++ a.ending)) (b'/' ∷ (m ++ b.ending)) h in
    let tails : n ++ a.ending ≡ m ++ b.ending = cc (g) in
    same_name n m a.ending b.ending hn hm a.is_ending b.is_ending tails

-- What stands below a name below another one stands below that.
pub IsAt-below : (full name path : List ℕ) → IsAt (full_path full name) path → IsAt full path
IsAt-below full name path a = record {
  ending = b'/' ∷ (name ++ a.ending);
  is_ending = inr (name ++ a.ending, refl);
  splits = a.splits ∙ append_assoc full (b'/' ∷ name) a.ending;
}
