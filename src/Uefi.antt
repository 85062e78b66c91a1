-- ===== src/Uefi.antt =====
-- uefi/remote-boot: the UEFI program that schedules the next boot.
pub mod LoadOption
pub mod RemoteBoot
mod Tests
