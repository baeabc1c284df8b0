-- ===== src/Tests.antt =====
-- The theorems about the program at concrete inputs.
mod Striped
mod Listener
mod Pump
mod Reassembly
mod Framing
mod Router
mod Signaling
mod Config
mod Main
mod Meeting
mod Session
mod Client
mod Ice
mod Transport
mod Bench
mod BenchRuns
