-- ===== src/Probe.antt =====
-- The eBPF programs: shspectr-ebpf/src/main.rs.
pub mod Kernel
pub mod Exec
pub mod Io
mod Branches
pub mod Trace
pub mod Capture
pub mod Recording
pub mod Typed
pub mod Shaped
mod Built
pub mod Readable
pub mod Calls
pub mod Loader
