-- ===== src/Proto/Messages.antt =====
-- The message types of proto/, one child for each source file: the struct, when its fields fit the
-- wire, Compose, parse, the bytes of the body, and that the two functions agree on them.
pub mod Version
pub mod Auth
pub mod Attach
pub mod Error
pub mod Flush
pub mod Walk
pub mod Open
pub mod Create
pub mod Read
pub mod Write
pub mod Clunk
pub mod Remove
pub mod StatCall
pub mod Wstat
