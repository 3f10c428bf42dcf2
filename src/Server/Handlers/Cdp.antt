-- ===== src/Server/Handlers/Cdp.antt =====
-- `handle_cdp` of include/axiom/server.hpp.
use axiom_vm.Prelude.{ℕ, ◌+◌, Bool, Option, none, some, List, [], ◌∷◌, length, take, drop}
use axiom_vm.Common.{Result, ok, err}
use axiom_vm.Wire.Headers.{
  FrameHeader, CdpActionRequestHeader, CdpActionResponseHeader, cdp_request_struct,
  cdp_response_struct,
}
use axiom_vm.Wire.Codec.{sizeof, decode_cdp_request, encode_cdp_response}
use axiom_vm.Wire.Opcode.{Opcode, CdpActionType, cdp_action_of}
use axiom_vm.Server.Slot.{Core}
use axiom_vm.Server.Services.{Services}
use axiom_vm.Server.Reply.{with_request, u32, neg32, response_header, reply}

-- A response with a status and no tree.
unfoldable pub cdp_status : ℕ → CdpActionResponseHeader × List ℕ
cdp_status status = (record { status = status; node_count = 0; payload_len = 0 }, [])

unfoldable pub cdp_tree : ℕ × List ℕ → CdpActionResponseHeader × List ℕ
cdp_tree (count, text) =
    (record { status = 0; node_count = u32 count; payload_len = u32 (length text) }, text)

-- The tree if there is one: after an action a missing tree is no failure, for a request of the
-- tree it is.
unfoldable pub tree_or : ℕ → Result (ℕ × List ℕ) → CdpActionResponseHeader × List ℕ
unfolding cdp_status cdp_tree
tree_or status (ok tree) = cdp_tree tree
tree_or status (err _) = cdp_status status

module _ {W : Type 0} (services : Services W) where
  -- An action, and the tree behind it if the action succeeds.
  unfoldable pub act_then_tree : Result (Unit {0}) × W → (CdpActionResponseHeader × List ℕ) × W
  unfolding tree_or cdp_status
  act_then_tree (err _, world) = (cdp_status (neg32 1), world)
  act_then_tree (ok _, world) =
      let (tree, world') = services.get_axtree world in (tree_or 0 tree, world')

  unfoldable pub act_only : Result (Unit {0}) × W → (CdpActionResponseHeader × List ℕ) × W
  unfolding cdp_status
  act_only (err _, world) = (cdp_status (neg32 1), world)
  act_only (ok _, world) = (cdp_status 0, world)

  -- the `switch` over the action
  unfoldable pub cdp_action :
      CdpActionRequestHeader → List ℕ → W → (CdpActionResponseHeader × List ℕ) × W
  unfolding act_then_tree act_only tree_or cdp_status cdp_action_of
  cdp_action req p1 world = elim (cdp_action_of req.action) [
    | none ↦ (cdp_status (neg32 2), world)
    | some action ↦ elim action [
      | CdpActionType.navigate ↦ act_then_tree (services.navigate p1 world)
      | CdpActionType.get_tree ↦
          let (tree, world') = services.get_axtree world in (tree_or (neg32 1) tree, world')
      | CdpActionType.click ↦ act_then_tree (services.click req.target_id world)
      | CdpActionType.type_text ↦ act_only (services.type_text req.target_id p1 world)
      | CdpActionType.scroll ↦ act_only (services.scroll req.scroll_delta world)
    ]
  ]

  unfoldable pub handle_cdp : Option ℕ → FrameHeader → List ℕ → Core W → Bool × Core W
  unfolding cdp_action response_header
  handle_cdp fd header payload core =
      with_request header.payload_len (sizeof cdp_request_struct) (decode_cdp_request payload) core
        (λ req. sizeof cdp_request_struct + req.payload1_len + req.payload2_len)
        (λ req.
          let p1 = take req.payload1_len (drop (sizeof cdp_request_struct) payload) in
          let (response, world) = cdp_action req p1 core.world in
          let (resp_hdr, text) = response in
          reply fd
            (response_header header Opcode.cdp_action_response
              (u32 (sizeof cdp_response_struct + length text)))
            (sizeof cdp_response_struct) (encode_cdp_response resp_hdr) (text ∷ [])
            (record core { world = world }))
