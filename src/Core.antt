-- ===== src/Core.antt =====
-- The low-level layer, ykcore/ykcore.c.
pub mod Io
pub mod Wait
pub mod Frame
pub mod Response
pub mod Program
pub mod Libusb
