-- ===== src/Tests.antt =====
-- Concrete devices, states and requests, and the theorems applied to them.
pub mod Setup
pub mod Protocols
pub mod Device
pub mod Loop
pub mod Cdc
pub mod Script
pub mod Tap
pub mod Usb
pub mod Chip
