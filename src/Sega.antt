-- ===== src/Sega.antt =====
-- impl/firmware/main/sega.c: the SEGA reader protocol over CDC-ACM.
pub mod Codes
pub mod Encode
pub mod Dispatch
pub mod Parser
pub mod Spec
