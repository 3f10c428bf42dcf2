-- ===== src/Common.antt =====
-- include/axiom/common.hpp: the error codes of the runtime and `Result<T>`.
use axiom_vm.Prelude.{◌≡◌, refl, ◌⊎◌, inl, inr}
use Prim.Native.String.{String}

-- `enum class SystemError`
pub data SystemError : Type 0 where
  success invalid_argument buffer_underflow buffer_overflow out_of_memory : SystemError
  vsock_error epoll_error signalfd_error process_spawn_error process_wait_error : SystemError
  io_error protocol_error mount_error not_found ast_error : SystemError

unfoldable pub to_string_view : SystemError → String
to_string_view success = "Success"
to_string_view invalid_argument = "Invalid argument"
to_string_view buffer_underflow = "Buffer underflow"
to_string_view buffer_overflow = "Buffer overflow"
to_string_view out_of_memory = "Out of memory"
to_string_view vsock_error = "Virtio vsock error"
to_string_view epoll_error = "Epoll error"
to_string_view signalfd_error = "Signalfd error"
to_string_view process_spawn_error = "Process spawn error"
to_string_view process_wait_error = "Process wait error"
to_string_view io_error = "IO error"
to_string_view protocol_error = "Protocol error"
to_string_view mount_error = "Mount error"
to_string_view not_found = "Not found"
to_string_view ast_error = "AST error"

-- `Result<T>`, which is `std::expected<T, SystemError>`
pub data Result {ℓ} (A : Type ℓ) : Type ℓ where
  ok : A → Result A
  err : SystemError → Result A

infixl 5 ◌>>=◌
abbrev pub ◌>>=◌ {ℓ κ} : {A : Type ℓ} {B : Type κ} → Result A → (A → Result B) → Result B
ok a >>= f = f a
err e >>= f = err e

pub Result-cases {ℓ} :
    {A : Type ℓ} (r : Result A) → ((a : A) × (r ≡ ok a)) ⊎ ((e : SystemError) × (r ≡ err e))
Result-cases (ok a) = inl (a, refl)
Result-cases (err e) = inr (e, refl)
