-- ===== src/Sequence.antt =====
-- Sequence files of src/ptrim-lib.cc: download writes the slots of a device as text (Download), upload
-- sends the slots of a text to a device (Upload). A file is a list of lines, each the bytes of its
-- buffer; what lies behind the end of a buffer reads as 0.
mod Line
mod Download
mod Upload
pub mod Whole
pub mod Devices
pub mod Unknown
pub mod Fetched
pub mod Commands
pub mod Slot
pub mod Rounds
pub mod RoundTrip
pub mod Endless
unfoldable pub use Line.*
unfoldable pub use Download.*
unfoldable pub use Upload.*
