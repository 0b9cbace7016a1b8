-- ===== src/Wire.antt =====
-- The wire format: read.go, write.go, discard.go, sizeof.go and protocol.go.
pub mod Bytes
pub mod Reader
pub mod Read
pub mod Write
pub mod Size
pub mod Sizes
pub mod Reads
pub mod Primitives
pub mod Frame
pub mod Mapping
pub mod VarInt
