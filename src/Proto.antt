-- ===== src/Proto.antt =====
-- proto/: the 9P2000 messages, their byte encoding and the parser of the wire format.
pub mod Marshal
pub mod Header
pub mod Qid
pub mod Stat
pub mod Messages
pub mod Reader
pub mod Call
