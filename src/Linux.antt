-- ===== src/Linux.antt =====
-- The platform layer for Linux, src/util/linux.
pub mod Tcp
pub mod Proxy
