-- ===== src/Forward.antt =====
-- internal/forward/forward.go: TCP connections bridged over multiplexed streams.
pub mod Striped
pub mod Tunnel
pub mod Header
pub mod Chunk
pub mod Reassembly
pub mod Dispatch
pub mod Pump
pub mod Router
pub mod Listener
