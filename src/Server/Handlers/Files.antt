-- ===== src/Server/Handlers/Files.antt =====
-- `read_file`, `write_file`, `handle_read_file` and `handle_write_file` of include/axiom/server.hpp.
use axiom_vm.Prelude.{
  ℕ, zero, suc, ◌+◌, ◌-◌, ◌%◌, Bool, ◌&&◌, not, Option, none, some, List, [], ◌∷◌, ◌++◌,
  if◌then◌else◌, ltb, ◌==◌, length, take, drop,
}
use axiom_vm.Common.{Result, ok, err, SystemError}
use axiom_vm.Wire.Headers.{
  FrameHeader, ReadFileRequestHeader, ReadFileResponseHeader, WriteFileRequestHeader,
  WriteFileResponseHeader, read_file_request_struct, read_file_response_struct,
  write_file_request_struct, write_file_response_struct,
}
use axiom_vm.Wire.Codec.{
  sizeof, decode_read_file_request, encode_read_file_response, decode_write_file_request,
  encode_write_file_response,
}
use axiom_vm.Wire.Opcode.{Opcode}
use axiom_vm.Server.Os.{write_all}
use axiom_vm.Server.Slot.{Core}
use axiom_vm.Server.Services.{
  Services, Sys, done, fails, FileRead, chunk, end_of_file, rdonly, trunc, append,
}
use axiom_vm.Server.Reply.{with_request, u32, neg32, response_header, reply}

-- `AST_FILE_BUFFER_CAPACITY`
abbrev pub file_buffer_capacity : ℕ
file_buffer_capacity = 262144

abbrev pub einval : ℕ
einval = 22

-- A path that fits the zero-terminated buffer of 4096 bytes.
abbrev pub is_usable_path : List ℕ → Bool
is_usable_path path = not (length path == 0) && ltb (length path) 4096

-- A C string ends at its first zero byte.
unfoldable pub c_string : List ℕ → List ℕ
c_string [] = []
c_string (b ∷ bs) = if b == 0 then [] else b ∷ c_string bs

-- the loop of `read_file`, over the answers of read(2), with the room left in the buffer
unfoldable pub read_loop : ℕ → List FileRead → Result (List ℕ)
read_loop zero answers = ok []
read_loop (suc room) [] = ok []
read_loop (suc room) (chunk b bs ∷ answers) =
    let rest = read_loop (room - length bs) answers in
    elim rest [ err e ↦ err e | ok more ↦ ok (take (suc room) (b ∷ bs) ++ more) ]
read_loop (suc room) (end_of_file ∷ answers) = ok []
read_loop (suc room) (FileRead.interrupted ∷ answers) = read_loop (suc room) answers
read_loop (suc room) (FileRead.failed ∷ answers) = err SystemError.io_error

-- A response with an error status, and no bytes.
unfoldable pub read_failure : ℕ → ℕ → ReadFileResponseHeader × List ℕ
read_failure errno total =
    (record { status = neg32 errno; total_size = total; content_len = 0 }, [])

unfoldable pub read_bytes : ℕ → Sys (List ℕ) → ReadFileResponseHeader × List ℕ
unfolding read_failure
read_bytes total (fails errno) = read_failure errno total
read_bytes total (done bytes) =
    (record { status = 0; total_size = total; content_len = u32 (length bytes) }, bytes)

abbrev pub max_read : ℕ → ℕ
max_read max_bytes =
    if ltb 0 max_bytes && ltb max_bytes file_buffer_capacity
    then max_bytes
    else file_buffer_capacity

module _ {W : Type 0} (services : Services W) where
  unfoldable pub seek : ℕ → ℕ → W → Sys (Unit {0}) × W
  seek fd offset world =
      if ltb 0 offset then services.sys_lseek fd offset world else (done tt, world)

  -- `read_file`: the bytes put in the buffer
  unfoldable pub read_file : List ℕ → ℕ → W → Result (List ℕ) × W
  unfolding read_loop c_string
  read_file path buf_size world =
      if is_usable_path path
      then (let (opened, world') = services.sys_open (c_string path) rdonly 0 world in
          elim opened [
            | fails _ ↦ (err SystemError.io_error, world')
            | done fd ↦
                (read_loop buf_size (services.reads fd world'), services.sys_close fd world')
          ])
      else (err SystemError.invalid_argument, world)

  -- `write_file`
  unfoldable pub write_file : List ℕ → List ℕ → Core W → Result (Unit {0}) × Core W
  unfolding c_string write_all
  write_file path content core =
      if is_usable_path path
      then (let (opened, world) = services.sys_open (c_string path) trunc 0o644 core.world in
          elim opened [
            | fails _ ↦ (err SystemError.io_error, record core { world = world })
            | done fd ↦
                let (written, os) = write_all fd content core.os in
                let core' = record core { os = os; world = services.sys_close fd world } in
                (if written then ok tt else err SystemError.io_error, core')
          ])
      else (err SystemError.invalid_argument, core)

  -- What `handle_read_file` does once the file is open: the response and the bytes to send.
  unfoldable pub read_open : ℕ → ReadFileRequestHeader → W → (ReadFileResponseHeader × List ℕ) × W
  unfolding read_failure read_bytes seek
  read_open fd req world =
      let total = elim (services.file_size fd world) as (λ _. ℕ) [ none ↦ 0 | some n ↦ u32 n ] in
      let (sought, world') = seek fd req.offset world in
      elim sought [
        | fails errno ↦ (read_failure errno total, world')
        | done _ ↦
            let (answer, world'') = services.sys_read fd (max_read req.max_bytes) world' in
            (read_bytes total answer, world'')
      ]

  unfoldable pub read_response :
      List ℕ → ReadFileRequestHeader → W → (ReadFileResponseHeader × List ℕ) × W
  unfolding read_open c_string read_failure
  read_response path req world =
      if is_usable_path path
      then (let (opened, world') = services.sys_open (c_string path) rdonly 0 world in
          elim opened [
            | fails errno ↦ (read_failure errno 0, world')
            | done fd ↦
                let (response, world'') = read_open fd req world' in
                (response, services.sys_close fd world'')
          ])
      else (read_failure einval 0, world)

  unfoldable pub handle_read_file : Option ℕ → FrameHeader → List ℕ → Core W → Bool × Core W
  unfolding read_response response_header
  handle_read_file fd header payload core =
      with_request header.payload_len (sizeof read_file_request_struct)
        (decode_read_file_request payload) core
        (λ req. sizeof read_file_request_struct + req.path_len)
        (λ req.
          let path = take req.path_len (drop (sizeof read_file_request_struct) payload) in
          let (response, world) = read_response path req core.world in
          let (resp_hdr, bytes) = response in
          reply fd
            (response_header header Opcode.read_file_response
              (u32 (sizeof read_file_response_struct + length bytes)))
            (sizeof read_file_response_struct) (encode_read_file_response resp_hdr) (bytes ∷ [])
            (record core { world = world }))

  -- `mkdir` of every part of the path that ends before a '/', but for one at its start.
  unfoldable pub make_parents : List ℕ → List ℕ → W → W
  unfolding c_string
  make_parents front [] world = world
  make_parents front (c ∷ cs) world =
      let world' = if c == b'/' then services.sys_mkdir (c_string front) world else world in
      make_parents (front ++ (c ∷ [])) cs world'

  -- What `handle_write_file` does once the file is open.
  unfoldable pub write_open : ℕ → List ℕ → Core W → WriteFileResponseHeader × Core W
  unfolding write_all
  write_open fd content core =
      if ltb 0 (length content)
      then (let (written, os) = write_all fd content core.os in
          let core' = record core { os = os } in
          (
            if written
                then record { status = 0; bytes_written = length content }
                else record { status = neg32 (services.errno core.world); bytes_written = 0 },
            core',
          ))
      else (record { status = 0; bytes_written = 0 }, core)

  unfoldable pub write_response :
      List ℕ → List ℕ → WriteFileRequestHeader → Core W → WriteFileResponseHeader × Core W
  unfolding write_open make_parents
  write_response path content req core =
      if is_usable_path path
      then (let world = make_parents (take 1 path) (drop 1 path) core.world in
          let flags = if req.flags % 2 == 1 then append else trunc in
          let mode = if req.mode == 0 then 0o644 else req.mode in
          let (opened, world') = services.sys_open (c_string path) flags mode world in
          elim opened [
            | fails errno ↦
                (record { status = neg32 errno; bytes_written = 0 }, record core { world = world' })
            | done fd ↦
                let (response, core') = write_open fd content (record core { world = world' }) in
                (response, record core' { world = services.sys_close fd core'.world })
          ])
      else (record { status = neg32 einval; bytes_written = 0 }, core)

  unfoldable pub handle_write_file : Option ℕ → FrameHeader → List ℕ → Core W → Bool × Core W
  unfolding write_response response_header
  handle_write_file fd header payload core =
      with_request header.payload_len (sizeof write_file_request_struct)
        (decode_write_file_request payload) core
        (λ req. sizeof write_file_request_struct + req.path_len + req.content_len)
        (λ req.
          let path = take req.path_len (drop (sizeof write_file_request_struct) payload) in
          let content =
            take req.content_len (drop (sizeof write_file_request_struct + req.path_len) payload) in
          let (resp_hdr, core') = write_response path content req core in
          reply fd
            (response_header header Opcode.write_file_response (sizeof write_file_response_struct))
            (sizeof write_file_response_struct) (encode_write_file_response resp_hdr) [] core')
