-- ===== src/Cdp/Commands.antt =====
-- The commands that `CdpBridge` of include/axiom/cdp.hpp sends to Chromium.
use axiom_vm.Prelude.{
  ℕ, ◌-◌, Bool, true, not, ◌||◌, Option, none, some, List, ◌∷◌, ◌++◌, if◌then◌else◌, ltb, leb, ◌==◌,
  length, take, get_or, le_value, replicate, codes,
}
use axiom_vm.Common.{ok, err, invalid_argument, io_error, not_found, process_spawn_error}
use axiom_vm.Server.Handlers.Files.{c_string}
use axiom_vm.Cdp.{extract_field_str}
use axiom_vm.Cdp.Tree.{Filtered, filter_and_format}
use axiom_vm.Cdp.Bridge.{
  M, ◌>>=◌, ◌>>◌, give, ignore, note, write_pipe, read_msg_matching, next_id, session, int_text,
  command_head, command, required, set_session, page_target, opened, closed, Bridge,
}

abbrev open_pair : ℕ → ℕ → Bridge → Bridge
open_pair fd fd' b = note (opened fd') (note (opened fd) b)

abbrev close_pair : ℕ → ℕ → Bridge → Bridge
close_pair fd fd' b = note (closed fd') (note (closed fd) b)

-- The browser's answers to `start`: whether it is installed, the two pipes and the fork.
pub record Spawn : Type 0 where
  pub has_chrome : Bool
  pub to_chrome : Option (ℕ × ℕ)
  pub from_chrome : Option (ℕ × ℕ)
  pub fork : Option ℕ

-- `beyond n` is what stands in memory behind a local buffer: a text that snprintf cuts is sent with
-- the length that it would have had.
module _ (beyond : ℕ → List ℕ) where
  unfoldable pub printed : ℕ → List ℕ → List ℕ
  printed size text =
      if ltb (length text) size
      then text
      else take (size - 1) text ++ (0 ∷ beyond (length text - size))

  unfoldable pub send_session_cmd : List ℕ → List ℕ → M ℕ
  unfolding next_id printed write_pipe read_msg_matching int_text
  send_session_cmd method params = do
    req_id ← next_id
    session_id ← session
    write_pipe (printed 512 (command req_id session_id method (c_string params)))
    ignore (read_msg_matching req_id)
    give req_id

  -- A command of the bridge with its answer, which must come.
  abbrev ask : ℕ → ℕ → List ℕ → M (List ℕ)
  ask size id text = do write_pipe (printed size text); read_msg_matching id

  unfoldable pub attach_to_page : M (Unit {0})
  unfolding next_id printed write_pipe read_msg_matching int_text page_target send_session_cmd
  attach_to_page = do
    req_id ← next_id
    resp ←
        ask 128 req_id
          (codes "{\"id\":" ++ (int_text req_id ++ codes ",\"method\":\"Target.getTargets\"}"))
    target_id ← required (page_target resp)
    attach_id ← next_id
    answer ← ask 256 attach_id (
        codes "{\"id\":"
        ++ (int_text attach_id
            ++ (codes ",\"method\":\"Target.attachToTarget\",\"params\":{\"targetId\":\""
                ++ (c_string target_id ++ codes "\",\"flatten\":true}}"))))
    session_str ← required (extract_field_str answer (codes "\"sessionId\""))
    set_session session_str
    ignore (send_session_cmd (codes "Accessibility.enable") (codes "{}"))
    ignore (send_session_cmd (codes "Page.enable") (codes "{}"))
    ignore (send_session_cmd (codes "DOM.enable") (codes "{}"))

  -- In the parent. Where the second pipe fails the first stays open.
  unfoldable pub start : Spawn → M (Unit {0})
  unfolding attach_to_page
  start s b =
      if b.started
      then (ok tt, b)
      else if not s.has_chrome
      then (err not_found, b)
      else elim s.to_chrome [
        | none ↦ (err io_error, b)
        | some (to_read, to_write) ↦
            let b1 = open_pair to_read to_write b in
            elim s.from_chrome [
              | none ↦ (err io_error, b1)
              | some (from_read, from_write) ↦
                  let b2 = open_pair from_read from_write b1 in
                  elim s.fork [
                    | none ↦ (
                      err process_spawn_error,
                      close_pair from_read from_write (close_pair to_read to_write b2),
                    )
                    | some pid ↦ attach_to_page (record (close_pair to_read from_write b2) {
                      to_chrome_fd = some to_write;
                      from_chrome_fd = some from_read;
                      child_pid = some pid;
                      started = true;
                    })
                  ]
            ]
      ]

  unfoldable pub navigate : Spawn → List ℕ → M (Unit {0})
  unfolding start send_session_cmd printed
  navigate s url b =
      if not b.started
      then start s b
      else (do
        send_session_cmd (codes "Page.navigate")
            (printed 1024 (codes "{\"url\":\"" ++ (c_string url ++ codes "\"}")))
        give tt)
          b

  -- a browser for what needs one
  unfoldable pub ensure_started : Spawn → M (Unit {0})
  unfolding start
  ensure_started s b = if not b.started then start s b else (ok tt, b)

  -- `filter_and_format` into the handle map, which is cleared where the text has no nodes
  unfoldable pub filter_into : ℕ → List ℕ → M Filtered
  unfolding filter_and_format
  filter_into size json b = elim (filter_and_format size json (length b.handle_map)) [
    | err e ↦ (err e, record b { handle_map = replicate (length b.handle_map) 0 })
    | ok f ↦ (ok f, record b { handle_map = f.handle_map })
  ]

  -- the request of `get_axtree` and its answer
  unfoldable pub full_tree : M (List ℕ)
  unfolding next_id printed write_pipe read_msg_matching int_text
  full_tree = do
    req_id ← next_id
    session_id ← session
    ask 256 req_id
        (command_head req_id session_id (codes "Accessibility.getFullAXTree") ++ codes "}")

  unfoldable pub get_axtree : Spawn → ℕ → M Filtered
  unfolding ensure_started full_tree filter_into
  get_axtree s size = do ensure_started s; json ← full_tree; filter_into size json

  -- The element of a handle that is mapped; any other is refused before anything is sent. Behind the
  -- end of the map stands a number that nothing is known of.
  unfoldable pub with_element : ℕ → (ℕ → M (Unit {0})) → M (Unit {0})
  with_element handle act b =
      if handle == 0 || leb (length b.handle_map) handle
      then (err invalid_argument, b)
      else (let backend_id = get_or b.handle_map handle (le_value (beyond handle)) in
          if backend_id == 0 then (err invalid_argument, b) else act backend_id b)

  -- The object of an element, as the browser names it.
  unfoldable pub resolve_node : ℕ → M (List ℕ)
  unfolding next_id printed write_pipe read_msg_matching int_text
  resolve_node backend_id = do
    resolve_id ← next_id
    session_id ← session
    answer ← ask 256 resolve_id (
        command resolve_id session_id (codes "DOM.resolveNode")
          (codes "{\"backendNodeId\":" ++ (int_text backend_id ++ codes "}")))
    required (extract_field_str answer (codes "\"objectId\""))

  -- a call of a function on an object, whose answer is not read
  unfoldable pub call_function : ℕ → List ℕ → List ℕ → M (Unit {0})
  unfolding next_id printed write_pipe read_msg_matching int_text
  call_function size object_id function_text = do
    call_id ← next_id
    session_id ← session
    write_pipe (
        printed size (
          command_head call_id session_id (codes "Runtime.callFunctionOn")
          ++ (codes ",\"params\":{\"objectId\":\"" ++ (c_string object_id ++ function_text))))
    ignore (read_msg_matching call_id)

  unfoldable pub click_element : ℕ → M (Unit {0})
  unfolding resolve_node call_function
  click_element backend_id = do
    object_id ← resolve_node backend_id
    call_function 512 object_id (
        codes
          "\",\"functionDeclaration\":\"function() { this.scrollIntoView({block: 'center'}); this.click(); }\"}}")

  unfoldable pub type_into : List ℕ → ℕ → M (Unit {0})
  unfolding resolve_node call_function
  type_into text backend_id = do
    object_id ← resolve_node backend_id
    call_function 1024 object_id (
        codes
          "\",\"functionDeclaration\":\"function(v) { this.focus(); this.value = v; this.dispatchEvent(new Event('input', {bubbles:true})); this.dispatchEvent(new Event('change', {bubbles:true})); }\",\"arguments\":[{\"value\":\""
        ++ (c_string text ++ codes "\"}]}}"))

  unfoldable pub click : ℕ → M (Unit {0})
  unfolding with_element click_element
  click handle = with_element handle click_element

  unfoldable pub type_text : ℕ → List ℕ → M (Unit {0})
  unfolding with_element type_into
  type_text handle text = with_element handle (type_into text)

  unfoldable pub scroll : ℕ → M (Unit {0})
  unfolding next_id printed write_pipe read_msg_matching int_text
  scroll delta_y b =
      if not b.started
      then (err process_spawn_error, b)
      else (do
        call_id ← next_id
        session_id ← session
        write_pipe (
            printed 256 (
              command_head call_id session_id (codes "Runtime.evaluate")
              ++ (codes ",\"params\":{\"expression\":\"window.scrollBy(0, "
                  ++ (int_text delta_y ++ codes ")\"}}"))))
        ignore (read_msg_matching call_id))
          b
