-- ===== src/Fs/Streams/Files.antt =====
-- fs/stream_file.go: StreamFile and BiDiStreamFile over a stream, and PipeFile. Reading has a slice
-- of `count` bytes made first.
use go9p.Base.{ℕ, ◌%◌, ◌^◌, List, Option, none, some, ◌==◌, ◌||◌, if◌then◌else◌, bytes}
use go9p.Proto.Stat.{Stat}
use go9p.Fs.Permissions.{owrite, ordwr}
use go9p.Fs.Result.{Text}
use go9p.Fs.Streams.{ChanReader, Wait, returns, ends, blocks, chan_read}
use go9p.Fs.Streams.Base.{
  BaseStream, set_cell, new_stream, add_reader, remove_reader, chan_write, close_stream,
}

-- What a call on such a file comes to.
pub data Answered (A : Type 0) : Type 0 where
  gave : A → Answered A
  refused : Text → Answered A
  at_end : Answered A
  waiting : Answered A

-- The map fidReader.
abbrev pub Readers : Type 0
Readers = ℕ → Option ℕ

unfoldable pub bind_fid : Readers → ℕ → ℕ → Readers
bind_fid readers fid id j = if fid == j then some id else readers j

unfoldable pub unbind_fid : Readers → ℕ → Readers
unbind_fid readers fid j = if fid == j then none else readers j

-- A StreamFile or a BiDiStreamFile, with its stream.
pub record StreamFile : Type 0 where
  pub f_stat : Stat
  pub stream : BaseStream
  pub fid_reader : Readers

unfoldable pub new_stream_file : Stat → BaseStream → StreamFile
new_stream_file st s = record { f_stat = st; stream = s; fid_reader = λ fid. none }

-- The length of a baseStream is 0.
unfoldable pub stream_file_stat : StreamFile → Stat
stream_file_stat f = record f.f_stat { length = 0 }

bound : ℕ → StreamFile → ℕ × BaseStream → StreamFile
bound fid f (id, s) = record f { stream = s; fid_reader = bind_fid f.fid_reader fid id }

-- AddReader of a baseStream never returns nil.
unfoldable pub stream_file_open : ℕ → ℕ → StreamFile → Answered Unit × StreamFile
unfolding bound bind_fid
stream_file_open fid omode f =
    if (omode == owrite) || (omode == ordwr)
    then (refused (bytes "Cannot open this stream for writing."), f)
    else (gave tt, bound fid f (add_reader f.stream))

unfoldable pub bidi_open : ℕ → ℕ → StreamFile → Answered Unit × StreamFile
unfolding bound
bidi_open fid omode f = (gave tt, bound fid f (add_reader f.stream))

read_cell : ℕ → StreamFile → Wait (List ℕ × ChanReader) → Answered (List ℕ) × StreamFile
read_cell id f (returns (bs, r)) =
    (gave bs, record f { stream = record f.stream { cells = set_cell f.stream.cells id r } })
read_cell id f ends = (at_end, f)
read_cell id f blocks = (waiting, f)

-- The texts of the two kinds differ.
read_opened : Text → ℕ → StreamFile → Option ℕ → Answered (List ℕ) × StreamFile
unfolding read_cell set_cell
read_opened missing count f none = (refused missing, f)
read_opened missing count f (some id) = read_cell id f (chan_read count (f.stream.cells id))

unfoldable pub stream_file_read : ℕ → ℕ → ℕ → StreamFile → Answered (List ℕ) × StreamFile
unfolding read_opened
stream_file_read fid offset count f =
    read_opened (bytes "Failed to read stream. Not opened for read.") count f (f.fid_reader fid)

unfoldable pub bidi_read : ℕ → ℕ → ℕ → StreamFile → Answered (List ℕ) × StreamFile
unfolding read_opened
bidi_read fid offset count f =
    read_opened (bytes "Failed to read stream. Server error.") count f (f.fid_reader fid)

unfoldable pub stream_file_write : ℕ → ℕ → List ℕ → StreamFile → Answered ℕ × StreamFile
stream_file_write fid offset source f = (refused (bytes "Cannot write to this stream."), f)

sent : StreamFile → Wait (ℕ × BaseStream) → Answered ℕ × StreamFile
sent f (returns (n, s)) = (gave (n % 2 ^ 32), record f { stream = s })
sent f ends = (at_end, f)
sent f blocks = (waiting, f)

write_opened : List ℕ → StreamFile → Option ℕ → Answered ℕ × StreamFile
unfolding sent
write_opened source f none = (refused (bytes "Failed to write stream. Server error."), f)
write_opened source f (some id) = sent f (chan_write source f.stream)

unfoldable pub bidi_write : ℕ → ℕ → List ℕ → StreamFile → Answered ℕ × StreamFile
unfolding write_opened
bidi_write fid offset source f = write_opened source f (f.fid_reader fid)

closed_reader : ℕ → StreamFile → Option ℕ → StreamFile
closed_reader fid f none = f
closed_reader fid f (some id) = record f {
  stream = remove_reader id f.stream;
  fid_reader = unbind_fid f.fid_reader fid;
}

-- Close of both kinds.
unfoldable pub stream_file_close : ℕ → StreamFile → StreamFile
unfolding closed_reader unbind_fid
stream_file_close fid f = closed_reader fid f (f.fid_reader fid)

-- A PipeFile: the stream and the reader that each fid opened. The handler that works on the other
-- end of the stream is another goroutine.
pub record PipeFile : Type 0 where
  pub pipe_stat : Stat
  pub pipes : ℕ → Option (BaseStream × ℕ)

unfoldable pub new_pipe_file : Stat → PipeFile
new_pipe_file st = record { pipe_stat = st; pipes = λ fid. none }

set_pipe : PipeFile → ℕ → Option (BaseStream × ℕ) → PipeFile
set_pipe f fid o = record f { pipes = λ j. if fid == j then o else f.pipes j }

piped : (ℕ × BaseStream) → Option (BaseStream × ℕ)
piped (id, s) = some (s, id)

unfoldable pub pipe_open : ℕ → ℕ → PipeFile → PipeFile
unfolding set_pipe piped
pipe_open fid omode f = set_pipe f fid (piped (add_reader (new_stream 10)))

pipe_read_cell :
    ℕ → BaseStream → ℕ → PipeFile → Wait (List ℕ × ChanReader) → Answered (List ℕ) × PipeFile
unfolding set_pipe
pipe_read_cell fid s id f (returns (bs, r)) =
    (gave bs, set_pipe f fid (some (record s { cells = set_cell s.cells id r }, id)))
pipe_read_cell fid s id f ends = (at_end, f)
pipe_read_cell fid s id f blocks = (waiting, f)

pipe_read_opened : ℕ → ℕ → PipeFile → Option (BaseStream × ℕ) → Answered (List ℕ) × PipeFile
unfolding pipe_read_cell set_cell
pipe_read_opened fid count f none = (refused (bytes "Failed to read stream. Server error."), f)
pipe_read_opened fid count f (some (s, id)) =
    pipe_read_cell fid s id f (chan_read count (s.cells id))

unfoldable pub pipe_read : ℕ → ℕ → ℕ → PipeFile → Answered (List ℕ) × PipeFile
unfolding pipe_read_opened
pipe_read fid offset count f = pipe_read_opened fid count f (f.pipes fid)

pipe_sent : ℕ → ℕ → PipeFile → Wait (ℕ × BaseStream) → Answered ℕ × PipeFile
unfolding set_pipe
pipe_sent fid id f (returns (n, s)) = (gave (n % 2 ^ 32), set_pipe f fid (some (s, id)))
pipe_sent fid id f ends = (at_end, f)
pipe_sent fid id f blocks = (waiting, f)

pipe_write_opened : ℕ → List ℕ → PipeFile → Option (BaseStream × ℕ) → Answered ℕ × PipeFile
unfolding pipe_sent
pipe_write_opened fid source f none = (refused (bytes "Failed to write stream. Server error."), f)
pipe_write_opened fid source f (some (s, id)) = pipe_sent fid id f (chan_write source s)

unfoldable pub pipe_write : ℕ → ℕ → List ℕ → PipeFile → Answered ℕ × PipeFile
unfolding pipe_write_opened
pipe_write fid offset source f = pipe_write_opened fid source f (f.pipes fid)

pipe_closed : ℕ → PipeFile → Option (BaseStream × ℕ) → PipeFile × Option BaseStream
unfolding set_pipe
pipe_closed fid f none = (f, none)
pipe_closed fid f (some (s, id)) = (set_pipe f fid none, some (close_stream s))

-- Close: the file, and the stream that it closed, which the handler still has.
unfoldable pub pipe_close : ℕ → PipeFile → PipeFile × Option BaseStream
unfolding pipe_closed
pipe_close fid f = pipe_closed fid f (f.pipes fid)
