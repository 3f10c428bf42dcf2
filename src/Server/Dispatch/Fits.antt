-- ===== src/Server/Dispatch/Fits.antt =====
-- What the handlers have to send fits into a frame: the texts behind the response headers are as
-- long as the headers say and no longer than the buffers that they come from.
use axiom_vm.Prelude.{
  ℕ, zero, suc, ◌-◌, ◌%◌, ◌^◌, ◌≤◌, ◌≡◌, refl, Option, none, some, List, [], ◌∷◌, ◌++◌, arith,
  length, take, Bool-cases, inl, inr, length-take, length-append,
}
use axiom_vm.Common.{Result, ok, err, Result-cases}
use axiom_vm.Wire.Headers.{AstSliceResponseHeader, ReadFileRequestHeader, CdpActionRequestHeader}
use axiom_vm.Wire.Opcode.{CdpActionType, cdp_action_of}
use axiom_vm.Server.Services.{
  Services, Symbols, not_extracted, not_formatted, table, SymbolSlice, Sys, done, fails, Sys-cases,
  rdonly, FileRead, chunk, end_of_file,
}
use axiom_vm.Server.Handlers.Ast.{
  symbols_response, symbols_of, slice_response, slice_of, symbols_failure, slice_failure,
}
use axiom_vm.Server.Handlers.Files.{
  read_file, read_loop, file_buffer_capacity, read_open, read_response, seek, max_read, read_bytes,
  is_usable_path, c_string, read_failure,
}
use axiom_vm.Server.Handlers.Cdp.{
  tree_or, cdp_tree, cdp_status, act_then_tree, act_only, cdp_action,
}
use axiom_vm.Server.Dispatch.Contract.{Bounded}

symbols_response-fits :
    (s : Symbols)
    → ((count : ℕ) (text : List ℕ) → s ≡ table count text → length text ≤ 262144)
    → length (symbols_response s).1 ≤ 262144
unfolding symbols_response
symbols_response-fits not_extracted fits = omega arith
symbols_response-fits (not_formatted n) fits = omega arith
symbols_response-fits (table count text) fits = fits count text refl

-- The content of a slice is as long as its header says.
abbrev pub SliceFits : AstSliceResponseHeader × List ℕ → Type 0
SliceFits (h, content) = (length content ≡ h.content_len) × (length content ≤ 262144)

slice_response-fits :
    (r : Result SymbolSlice)
    → ((s : SymbolSlice) → r ≡ ok s → length s.content ≤ 262144)
    → SliceFits (slice_response r)
unfolding slice_response slice_failure
slice_response-fits (err x) fits = (refl, omega arith)
slice_response-fits (ok s) fits = (
  omega (arith, fits s refl, length-take (length s.content % 2 ^ 32) s.content),
  omega (arith, fits s refl, length-take (length s.content % 2 ^ 32) s.content),
)

length-read_loop :
    (room : ℕ) (answers : List FileRead) (bytes : List ℕ)
    → read_loop room answers ≡ ok bytes
    → length bytes ≤ room
unfolding read_loop
length-read_loop zero answers bytes h = let e : [] ≡ bytes = ground arith in rw (← e) (omega arith)
length-read_loop (suc room) [] bytes h = let e : [] ≡ bytes = ground arith in rw (← e) (omega arith)
length-read_loop (suc room) (chunk b bs ∷ answers) bytes h =
    elim (Result-cases (read_loop (room - length bs) answers)) [
      | inr (x, e) ↦ let h' = rw (read_loop, e) at h in cc (h')
      | inl (more, e) ↦
          let h' = rw (read_loop, e) at h in
          let same : take (suc room) (b ∷ bs) ++ more ≡ bytes = ground arith in
          rw (← same) (
            omega (
              arith,
              length-append (take (suc room) (b ∷ bs)) more,
              length-take (suc room) (b ∷ bs),
              length-read_loop (room - length bs) answers more e,
            ))
    ]
length-read_loop (suc room) (end_of_file ∷ answers) bytes h =
    let e : [] ≡ bytes = ground arith in rw (← e) (omega arith)
length-read_loop (suc room) (FileRead.interrupted ∷ answers) bytes h =
    length-read_loop (suc room) answers bytes h
length-read_loop (suc room) (FileRead.failed ∷ answers) bytes h = cc

-- `read_file` stays within its buffer.
read_file-le :
    {W : Type 0} (services : Services W) (path : List ℕ) (size : ℕ) (w : W) (bytes : List ℕ)
    → (read_file services path size w).0 ≡ ok bytes
    → length bytes ≤ size
unfolding read_file
read_file-le services path size w bytes h = elim (Bool-cases (is_usable_path path)) [
  | inr no_path ↦ let h' = rw (read_file, no_path) at h in cc (h')
  | inl good ↦ elim (Sys-cases (services.sys_open (c_string path) rdonly 0 w).0) [
    | inr (errno, e) ↦ let h' = rw (read_file, good, e) at h in cc (h')
    | inl (fd, e) ↦
        let h' = rw (read_file, good, e) at h in
        length-read_loop size (services.reads fd (services.sys_open (c_string path) rdonly 0 w).1)
          bytes h'
  ]
]

module _ {W : Type 0} (services : Services W) (d : ℕ) (bounded : Bounded services d) where
  pub symbols_of-fits : (path : List ℕ) (w : W) → length (symbols_of services path w).0.1 ≤ 262144
  unfolding symbols_of symbols_failure
  symbols_of-fits path w = elim (Result-cases (read_file services path file_buffer_capacity w).0) [
    | inr (x, e) ↦ rw (symbols_of, e) (omega arith)
    | inl (source, e) ↦
        rw (symbols_of, e)
          (elim (Bool-cases (services.known_language path)) [
            | inl k ↦ rw k (symbols_response-fits _ (bounded.ast_fits.symbols_fit path source))
            | inr k ↦ rw k (omega arith)
          ])
  ]

  pub slice_of-fits : (path symbol : List ℕ) (w : W) → SliceFits (slice_of services path symbol w).0
  unfolding slice_of slice_failure
  slice_of-fits path symbol w =
      elim (Result-cases (read_file services path file_buffer_capacity w).0) [
        | inr (x, e) ↦ rw (slice_of, e) (refl, omega arith)
        | inl (source, e) ↦
            rw (slice_of, e)
              (elim (Bool-cases (services.known_language path)) [
                | inl k ↦ rw k (
                    slice_response-fits _ (λ s'.
                      bounded.ast_fits.slice_fits path source symbol s'
                        (read_file-le services path file_buffer_capacity w source e)))
                | inr k ↦ rw k (refl, omega arith)
              ])
      ]

  tree_or-fits :
      (status : ℕ) (r : Result (ℕ × List ℕ))
      → ((count : ℕ) (text : List ℕ) → r ≡ ok (count, text) → length text ≤ 65536)
      → length (tree_or status r).1 ≤ 65536
  unfolding tree_or cdp_tree cdp_status
  tree_or-fits status (err x) fits = omega arith
  tree_or-fits status (ok (count, text)) fits = fits count text refl

  act_then_tree-fits :
      (r : Result (Unit {0})) (w : W) → length (act_then_tree services (r, w)).0.1 ≤ 65536
  unfolding act_then_tree cdp_status
  act_then_tree-fits (err x) w = omega arith
  act_then_tree-fits (ok u) w = tree_or-fits 0 (services.get_axtree w).0 (bounded.tree_fits w)

  act_only-fits : (r : Result (Unit {0})) (w : W) → length (act_only services (r, w)).0.1 ≤ 65536
  unfolding act_only cdp_status
  act_only-fits (err x) w = omega arith
  act_only-fits (ok u) w = omega arith

  action-fits :
      (action : Option CdpActionType) (req : CdpActionRequestHeader) (p1 : List ℕ) (w : W)
      → cdp_action_of req.action ≡ action
      → length (cdp_action services req p1 w).0.1 ≤ 65536
  unfolding cdp_action cdp_status
  action-fits none req p1 w e = rw (cdp_action, e) (omega arith)
  action-fits (some CdpActionType.navigate) req p1 w e = rw (cdp_action, e) (act_then_tree-fits _ _)
  action-fits (some CdpActionType.get_tree) req p1 w e =
      rw (cdp_action, e) (tree_or-fits _ _ (bounded.tree_fits w))
  action-fits (some CdpActionType.click) req p1 w e = rw (cdp_action, e) (act_then_tree-fits _ _)
  action-fits (some CdpActionType.type_text) req p1 w e = rw (cdp_action, e) (act_only-fits _ _)
  action-fits (some CdpActionType.scroll) req p1 w e = rw (cdp_action, e) (act_only-fits _ _)

  pub cdp_action-fits :
      (req : CdpActionRequestHeader) (p1 : List ℕ) (w : W)
      → length (cdp_action services req p1 w).0.1 ≤ 65536
  cdp_action-fits req p1 w = action-fits (cdp_action_of req.action) req p1 w refl

  max_read-le : (n : ℕ) → max_read n ≤ 262144
  max_read-le n = ground arith

  read_bytes-fits :
      (total : ℕ) (answer : Sys (List ℕ)) (limit : ℕ)
      → ((bytes : List ℕ) → answer ≡ done bytes → length bytes ≤ limit)
      → length (read_bytes total answer).1 ≤ limit
  unfolding read_bytes read_failure
  read_bytes-fits total (done bytes) limit fits = fits bytes refl
  read_bytes-fits total (fails errno) limit fits = omega arith

  read_open-fits :
      (fd : ℕ) (req : ReadFileRequestHeader) (w : W)
      → length (read_open services fd req w).0.1 ≤ 262144
  unfolding read_open read_failure
  read_open-fits fd req w = elim (Sys-cases (seek services fd req.offset w).0) [
    | inr (errno, e) ↦ rw (read_open, e) (omega arith)
    | inl (u, e) ↦
        rw (read_open, e)
          (omega (
            arith,
            max_read-le req.max_bytes,
            read_bytes-fits _ _ _
                (bounded.read_fits fd (max_read req.max_bytes) (seek services fd req.offset w).1),
          ))
  ]

  pub read_response-fits :
      (path : List ℕ) (req : ReadFileRequestHeader) (w : W)
      → length (read_response services path req w).0.1 ≤ 262144
  unfolding read_response read_failure
  read_response-fits path req w = elim (Bool-cases (is_usable_path path)) [
    | inr e ↦ rw e (omega arith)
    | inl e ↦ rw e (elim (Sys-cases (services.sys_open (c_string path) rdonly 0 w).0) [
      | inr (errno, f) ↦ rw f (omega arith)
      | inl (fd, f) ↦ rw f (read_open-fits fd req _)
    ])
  ]
