-- ===== src/Fs/Static.antt =====
-- fs/static.go.
pub mod File
pub mod Dir
pub mod Create
