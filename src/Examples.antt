-- ===== src/Examples.antt =====
-- The theorems at concrete inputs.
pub mod Data
pub mod Probes
pub mod Handling
pub mod Sessions
pub mod Formats
pub mod Pages
pub mod Words
pub mod Insertion
pub mod Web
