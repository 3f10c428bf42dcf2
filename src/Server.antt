-- ===== src/Server.antt =====
-- include/axiom/server.hpp: the appliance server.
pub mod Os
pub mod Slot
pub mod Consume
pub mod Frames
pub mod Clients
pub mod Events
pub mod Services
pub mod Reply
pub mod Handlers
pub mod Dispatch
