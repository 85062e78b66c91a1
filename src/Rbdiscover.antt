-- ===== src/Rbdiscover.antt =====
-- ipxe/rbdiscover: the discovery client that runs in iPXE.
pub mod Dns
pub mod Encoding
pub mod Client
mod Tests
