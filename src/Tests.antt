-- ===== src/Tests.antt =====
-- Runs of the code on small inputs, and the theorems of the development at concrete inputs.
mod Sample
mod Wire
mod Buffers
mod Server
mod Diff
mod Ast
mod Process
mod Cdp
