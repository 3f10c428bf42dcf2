-- ===== src/Wire/Opcode.antt =====
-- `enum class Opcode` and `enum class CdpActionType` of include/axiom/wire.hpp, with their codes.
use axiom_vm.Prelude.{ℕ, Option, none, some, ◌==◌, if◌then◌else◌}

pub data Opcode : Type 0 where
  ping pong exec exec_output ast_symbols ast_slice ast_patch : Opcode
  ast_symbols_response ast_slice_response ast_patch_response : Opcode
  cdp_action cdp_action_response read_file read_file_response : Opcode
  write_file write_file_response shutdown : Opcode

unfoldable pub opcode_code : Opcode → ℕ
opcode_code ping = 0x0001
opcode_code pong = 0x0002
opcode_code exec = 0x0010
opcode_code exec_output = 0x0011
opcode_code ast_symbols = 0x0020
opcode_code ast_slice = 0x0021
opcode_code ast_patch = 0x0022
opcode_code ast_symbols_response = 0x0023
opcode_code ast_slice_response = 0x0024
opcode_code ast_patch_response = 0x0025
opcode_code cdp_action = 0x0030
opcode_code cdp_action_response = 0x0031
opcode_code read_file = 0x0040
opcode_code read_file_response = 0x0041
opcode_code write_file = 0x0042
opcode_code write_file_response = 0x0043
opcode_code shutdown = 0x00FF

pub data CdpActionType : Type 0 where
  navigate get_tree click type_text scroll : CdpActionType

-- `static_cast<CdpActionType>` of a byte, as the `switch` over it reads it: `none` is `default`.
unfoldable pub cdp_action_of : ℕ → Option CdpActionType
cdp_action_of a =
    if a == 1
    then some navigate
    else if a == 2
    then some get_tree
    else if a == 3
    then some click
    else if a == 4
    then some type_text
    else if a == 5
    then some scroll
    else none
