-- ===== src/Ptrim.antt =====
-- The command line program, src/ptrim.cc: Open selects and opens devices, Command is one command for
-- one device, Main puts them together.
pub mod Open
pub mod Command
pub mod Main
pub mod Clone
pub mod All
