-- ===== src/Tests/Sample.antt =====
-- Inputs that the tests share.
use axiom_vm.Prelude.{
  ℕ, Bool, true, false, none, some, List, [], ◌∷◌, ◌++◌, replicate, ltb, ltb→lt, All, IsByte, ◌≡◌,
}
use native.Mathlib.Omega.{arith}
use mathlib.Core.Bool.{◌&&◌}
use axiom_vm.Common.{err, SystemError}
use axiom_vm.Server.Services.{Services, not_extracted, fails}
use axiom_vm.Server.Slot.{ClientSlot, Core}

-- A ping frame with the request id 7.
abbrev pub ping_bytes : List ℕ
ping_bytes = 0x55 ∷ 0xAA ∷ 1 ∷ 0 ∷ 7 ∷ 0 ∷ 0 ∷ 0 ∷ 0 ∷ 0 ∷ 0 ∷ 0 ∷ []

abbrev pub capacity : ℕ
capacity = 16

-- A client whose buffer holds a ping frame and two bytes of another.
abbrev pub pinging : ClientSlot
pinging = record {
  fd = some 5;
  rx_buffer = record { slots = ping_bytes ++ (0x55 ∷ 0xAA ∷ 0 ∷ 0 ∷ []); size = 14 };
}

-- A client that has sent nothing.
abbrev pub silent : ClientSlot
silent = record { fd = some 6; rx_buffer = record { slots = replicate capacity 0; size = 0 } }

abbrev pub unused : ClientSlot
unused = record { fd = none; rx_buffer = record { slots = replicate capacity 0; size = 0 } }

abbrev pub idle : Core ℕ
idle = record { running = true; os = record { answers = []; trace = [] }; world = 0 }

-- Services that refuse everything and count the calls.
abbrev pub refusing : Services ℕ
refusing = record {
  run = λ opts w. (err SystemError.io_error, w);
  known_language = λ path. false;
  symbols = λ path source. not_extracted;
  slice = λ path source symbol. err SystemError.io_error;
  patch = λ path source symbol replacement. err SystemError.io_error;
  navigate = λ url w. (err SystemError.io_error, w);
  get_axtree = λ w. (err SystemError.io_error, w);
  click = λ id w. (err SystemError.io_error, w);
  type_text = λ id text w. (err SystemError.io_error, w);
  scroll = λ delta w. (err SystemError.io_error, w);
  sys_open = λ path flags mode w. (fails 2, w);
  sys_close = λ fd w. w;
  file_size = λ fd w. none;
  sys_lseek = λ fd offset w. (fails 22, w);
  sys_read = λ fd count w. (fails 5, w);
  reads = λ fd w. [];
  errno = λ w. 5;
  sys_mkdir = λ path w. w;
}

abbrev are_bytes : List ℕ → Bool
are_bytes [] = true
are_bytes (b ∷ bs) = ltb b 256 && are_bytes bs

-- Concrete bytes are below 256 by computation.
pub are_bytes_lem : (bs : List ℕ) → are_bytes bs ≡ true → All IsByte bs
are_bytes_lem [] h = tt
are_bytes_lem (b ∷ bs) h = ground (arith, ltb→lt b 256, are_bytes_lem bs)
