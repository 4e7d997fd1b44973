-- ===== src/Tests.antt =====
-- The theorems at work on concrete messages, files and trees.
mod Peer
mod ClientRuns
mod Loops
mod Streams
mod Unions
mod Codec
mod Files
mod Tree
mod Auth
mod Dirs
mod Making
