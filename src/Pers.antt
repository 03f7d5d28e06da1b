-- ===== src/Pers.antt =====
-- The personalization layer, ykpers.c.
pub mod Types
pub mod Capability
pub mod Command
pub mod Flags
pub mod Fields
pub mod Keys
pub mod Ndef
pub mod Modes
pub mod Export
pub mod Passphrase
pub mod Json
pub mod Formats
