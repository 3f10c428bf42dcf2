-- ===== src/Wire.antt =====
-- include/axiom/wire.hpp: the packed headers of the TDS-Wire protocol and their codecs.
pub mod Struct
pub mod Headers
pub mod Codec
pub mod Opcode
pub mod RoundTrip
pub mod Payload
