-- ===== src/Channel.antt =====
-- The five advertising channels, each with its record, its reader and its callback.
pub mod Juliang
pub mod Honor
pub mod Gdt
pub mod Uc
pub mod Ks
