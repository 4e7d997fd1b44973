-- ===== src/Fs/Streams/Base.antt =====
-- fs/streams.go: baseStream, what DroppingStream, BlockingStream and SkippingStream share. Its
-- readers are pointers, and so is what they point to: here a reader is a number, and its chanReader
-- is in a store.
pub mod Incoming
use go9p.Base.{
  ℕ, suc, ◌+◌, List, [], ◌∷◌, ◌++◌, length, take, drop, Bool, true, false, not, ◌==◌, ltb,
  if◌then◌else◌,
}
use go9p.Fs.Streams.{ChanReader, Wait, returns, ends, blocks, chan_close}

pub record BaseStream : Type 0 where
  pub cells : ℕ → ChanReader
  pub made : ℕ
  pub readers : List ℕ
  pub bufflen : ℕ
  -- the bytes of `incoming` that Read has begun
  pub left : List ℕ
  pub incoming : List (List ℕ)
  pub closed : Bool

unfoldable pub set_cell : (ℕ → ChanReader) → ℕ → ChanReader → ℕ → ChanReader
set_cell cells id r j = if id == j then r else cells j

-- NewDroppingStream, NewBlockingStream and NewSkippingStream.
unfoldable pub new_stream : ℕ → BaseStream
new_stream buffer = record {
  cells = λ id. record { queue = []; size = buffer; unread = []; live = false };
  made = 0;
  readers = [];
  bufflen = buffer;
  left = [];
  incoming = [];
  closed = false;
}

-- AddReader and AddReadWriter: the new reader and the stream.
unfoldable pub add_reader : BaseStream → ℕ × BaseStream
unfolding set_cell
add_reader s =
    let r : ChanReader = record {
      queue = [];
      size = s.bufflen;
      unread = [];
      live = not s.closed;
    } in
    (
      s.made,
      record s {
        cells = set_cell s.cells s.made r;
        made = suc s.made;
        readers = (if s.closed then s.readers else s.readers ++ (s.made ∷ []));
      },
    )

-- The loop of RemoveReader, which moves the readers that stay to the front.
unfoldable pub without : ℕ → List ℕ → List ℕ
without id [] = []
without id (j ∷ js) = if id == j then without id js else j ∷ without id js

unfoldable pub close_cell : ℕ → (ℕ → ChanReader) → ℕ → ChanReader
unfolding set_cell chan_close
close_cell id cells = set_cell cells id (chan_close (cells id))

unfoldable pub remove_reader : ℕ → BaseStream → BaseStream
unfolding without close_cell
remove_reader id s = record s { readers = without id s.readers; cells = close_cell id s.cells }

unfoldable pub close_cells : List ℕ → (ℕ → ChanReader) → ℕ → ChanReader
unfolding close_cell
close_cells [] cells = cells
close_cells (id ∷ ids) cells = close_cells ids (close_cell id cells)

unfoldable pub close_stream : BaseStream → BaseStream
unfolding close_cells
close_stream s =
    if s.closed
    then s
    else record s { cells = close_cells s.readers s.cells; readers = []; closed = true }

-- chanReader.Write: the channel `incoming` has ten places.
unfoldable pub chan_write : List ℕ → BaseStream → Wait (ℕ × BaseStream)
chan_write p s =
    if s.closed
    then ends
    else if ltb (length s.incoming) 10
    then returns (length p, record s { incoming = s.incoming ++ (p ∷ []) })
    else blocks

copied : ℕ → List ℕ → BaseStream → Wait (List ℕ × BaseStream)
copied room bs s = returns (take room bs, record s { left = drop room bs })

-- The loop of Read that takes messages from `incoming` until one has bytes; the end of the stream
-- is only seen when there are none.
next_message : ℕ → List (List ℕ) → BaseStream → Wait (List ℕ × BaseStream)
unfolding copied
next_message room [] s = if s.closed then ends else blocks
next_message room ([] ∷ incoming) s = next_message room incoming s
next_message room ((b ∷ bs) ∷ incoming) s = copied room (b ∷ bs) (record s { incoming = incoming })

read_left : ℕ → List ℕ → BaseStream → Wait (List ℕ × BaseStream)
unfolding next_message
read_left room [] s = next_message room s.incoming s
read_left room (b ∷ bs) s = copied room (b ∷ bs) s

-- baseStream.Read into a slice of `room` bytes.
unfoldable pub stream_read : ℕ → BaseStream → Wait (List ℕ × BaseStream)
unfolding read_left
stream_read room s = read_left room s.left s
