-- ===== src/Tests.antt =====
-- Runs of the models on concrete inputs, and the theorems at concrete inputs.
mod Core
mod Pers
mod Args
mod Keys
mod Tool
mod Chalresp
mod Info
mod Libusb
mod Json
mod Version
