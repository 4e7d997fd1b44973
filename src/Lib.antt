-- ===== src/Lib.antt =====
-- go9p is a library for 9P2000 servers and clients in Go. This development models its protocol, its
-- file server with the files and streams it serves, its client, and the mount table of its union of
-- file systems, and proves what makes them correct.
--
-- The parts and how they interact. A connection is a stream of messages. proto/ cuts a message from
-- the stream (ParseCall) and writes one (Compose). server.go hands each call to the handler of its
-- type (handleCall) and returns the answer, and keeps a context for each tag. fs/server.go holds the
-- handlers: a connection has a table of fids, each the node it stands for, the mode it is open in, and
-- the user. The handlers reach the tree of files through the interfaces of fs/filesystem.go, which the
-- files of fs/static.go, fs/dynamic.go and fs/stream_file.go implement, and ask fs/permissions.go who
-- may open a node. client/client.go sends calls over a connection, each with a tag of its own, and a
-- worker hands each answer to the goroutine that waits for its tag. union/union.go makes one tree of
-- several clients, by a table of mounts.
--
-- The files.
--   Base           tests on numbers, lists, strings as bytes, the bits of a mask.
--   Proto.Marshal  proto/marshall.go. Cursor: the writers toLittleE16, toString and so on, as steps
--                  on the rest of a buffer, which panic when it is full. Parser: the readers
--                  fromLittleE16, fromString and so on, with the panic of a slice out of range.
--   Proto.Header, Proto.Qid, Proto.Stat
--                  Header and Qid of proto/fcall.go, Stat of proto/stat.go. Stat.Entries: ParseStats.
--   Proto.Messages one module for each file of proto/ with messages: the struct, Compose and parse.
--                  StatCall has TStat and RStat of proto/stat.go.
--   Proto.Reader   readBytes. A reader is the list of the chunks that its calls of Read deliver.
--   Proto.Call     FCall of proto/fcall.go. Parse: ParseCall. Layout: what a message looks like.
--   Serve          Srv, Conn and handleCall of server.go. Loop: handleIO. Async: handleIOAsync, as
--                  steps of its goroutines. Tagged: the tags of the answers.
--   Fs.Result      the value, the error or the panic of a call.
--   Fs.Nodes       the interfaces FSNode, File, Dir, ModDir and the hooks of FS, in fs/filesystem.go.
--                  A node is a handle, and what it refers to is in a world that every call passes on.
--   Fs.Permissions fs/permissions.go and the modes of proto/open.go. Bits: the octal digits.
--   Fs.Static      StaticFile and StaticDir of fs/static.go. File.Contents: the bytes after a write.
--                  Dir: directories on a heap of nodes. Dir.Children: what they hold. Create: NewQid
--                  and NewStat of fs/filesystem.go, and the two Create hooks.
--   Fs.Server      fs/server.go. Conn: fidInfo, conn and its contexts. Session: Version, Auth, Attach,
--                  Clunk. Walk: Walk. Files: Open, Create, Remove. Data: Read, readDir, Write.
--                  Attributes: Stat, Wstat. Fids and Dispatch: all handlers together. The modules
--                  Trust and Dispatch.Authentication: the users that fids act for. Tagged: the tags.
--   Fs.Tree        FullPath, BaseNode, BaseFile, RMFile, NewFS and its options, of fs/filesystem.go.
--   Fs.Streams     fs/streams.go: chanReader. Base: baseStream, with a store for its readers. Writing:
--                  the three kinds of Write. Files: fs/stream_file.go. Reading, Delivery and
--                  Base.Incoming: what is read of what was written.
--                  Delivery.Dropping: DroppingStream.Write. Delivery.Rounds, Delivery.Blocking: the
--                  loop of BlockingStream.Write. Single: SingleStream.
--   Fs.Dynamic     fs/dynamic.go.
--   Client         client/client.go: Client, its tags and fids, getResponse and worker. Run: steps of a
--                  goroutine in sequence. Paths: walkFid, the path cache, clunkFid, Stat, WStat,
--                  Remove. Names: path.Dir and path.Base of Go, and Create. Files: File, Open and the
--                  reads and writes. Dirs: readAll and Readdir. Session: NewClient. Tags: the tags
--                  with many goroutines. Answers: getResponse when its answer comes. Transfer: reads
--                  and writes against the file that the server holds. Wire: the client and the server
--                  at the two ends of a connection.
--   Union          the mount table of union/union.go. Mounts: mounting, unmounting and creation.
--   Tests          runs on concrete messages, files, a tree of two files, a client and streams.
--
-- Numbers and bounds. All integers are the native natural numbers; where the source computes on
-- uint16, uint32 or uint64, the wrap is written out. A string is the list of its bytes. Compose and
-- the parsers are modelled for every value, and the predicates IsTAttach and the like say when the
-- fields fit their Go types, which is what the Go types guarantee. ParseStats is a loop on fuel: the
-- length of the buffer is enough, since every entry takes at least one byte. The slice that a write
-- grows is bounded by `alloc_limit`, a parameter that stands for the limit of the Go runtime.
--
-- A connection of the client is a function that takes a call and a state of the peer and says what
-- becomes of it: Compose panics, the bytes are not taken, a message comes back, or none does. The
-- loops of the client are on fuel: one turn for each byte is enough to write, and one more to read to
-- the end. handleIO is on fuel, one turn for each call and one for the end of the stream. FullPath is
-- on fuel, one turn for each name and one for the root. The free part of a bytes.Buffer is a function
-- of its length, a parameter.
--
-- Goroutines. A handler is one step on the state of its connection. handleIOAsync, takeTag and
-- returnTag of the client, Write of BlockingStream, and SingleStream are step relations, which leave
-- the order of the goroutines open. Else a goroutine of the client runs alone up to its answer; the
-- worker, which hands the answer over and then gives the tag back, is done with both before the
-- goroutine goes on; and the goroutines that clunk fids run at any later time. A Write of a stream
-- that waits for a timer finds the channel as full at the end as at the beginning.
--
-- What is not modelled. The String methods and the logging. The sockets, TLS, and the functions that
-- listen and dial. The authentication by third-party packages, which is a parameter.
-- SavedStream, which is a file of the operating system. Children and the files of the union. The
-- files of the operating system, the listener, the certificates, the commands and the examples.
pub mod Base
pub mod Proto
pub mod Serve
pub mod Fs
pub mod Client
pub mod Union
pub mod Tests
