-- ===== src/Microlink.antt =====
-- components/microlink/src: the framing of the control connection, the JSON scanner, and small policies.
pub mod Stream
pub mod H2
pub mod H2Data
pub mod Policy
pub mod JsonScan
mod Tests
