-- ===== src/Server/Handlers.antt =====
-- The request handlers of include/axiom/server.hpp, by the component that they call.
pub mod Exec
pub mod Files
pub mod Ast
pub mod Cdp
