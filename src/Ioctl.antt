-- ===== src/Ioctl.antt =====
-- lwis_ioctl.c: the requests of a client. Copies between user and kernel memory are parameters: what
-- a copy brings in is an argument, and so is whether it succeeds.
pub mod Buffers
pub mod Entries
pub mod Registers
pub mod Events
pub mod Requests
pub mod Settings
pub mod Handler
