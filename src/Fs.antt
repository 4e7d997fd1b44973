-- ===== src/Fs.antt =====
-- fs/: the file system served over 9P2000.
pub mod Tree
pub mod Streams
pub mod Dynamic
pub mod Result
pub mod Nodes
pub mod Permissions
pub mod Static
pub mod Server
