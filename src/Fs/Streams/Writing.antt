-- ===== src/Fs/Streams/Writing.antt =====
-- fs/streams.go: Write of the three kinds of streams. Nobody reads while a Write waits for a timer:
-- a channel that is full when the wait begins is full when it ends.
use go9p.Base.{
  ℕ, List, [], ◌∷◌, ◌++◌, length, Option, none, some, Bool, not, ◌&&◌, ltb, if◌then◌else◌,
}
use go9p.Fs.Streams.{ChanReader}
use go9p.Fs.Streams.Base.{BaseStream, set_cell, close_cell}

-- `case reader.read <- cp`, where there is room for it.
unfoldable pub push : List ℕ → ChanReader → ChanReader
push p r = record r { queue = r.queue ++ (p ∷ []) }

unfoldable pub has_room : ChanReader → Bool
has_room r = ltb (length r.queue) r.size

-- The store and the readers that stay.
abbrev pub Round : Type 0
Round = (ℕ → ChanReader) × List ℕ

unfoldable pub keep : ℕ → Option Round → Option Round
keep id none = none
keep id (some (cells, ids)) = some (cells, id ∷ ids)

-- The loop of DroppingStream.Write: a reader whose channel is full is closed and leaves. To send on
-- a closed channel panics, which is `none`.
unfoldable pub dropping_loop : List ℕ → List ℕ → (ℕ → ChanReader) → Option Round
unfolding keep close_cell set_cell push has_room
dropping_loop p [] cells = some (cells, [])
dropping_loop p (id ∷ ids) cells =
    let sent = dropping_loop p ids (set_cell cells id (push p (cells id))) in
    let late = dropping_loop p ids (close_cell id cells) in
    if not (cells id).live then none else if has_room (cells id) then keep id sent else late

unfoldable pub dropped : BaseStream → Option Round → Option BaseStream
dropped s none = none
dropped s (some (cells, ids)) = some (record s { cells = cells; readers = ids })

unfoldable pub dropping_write : List ℕ → BaseStream → Option BaseStream
unfolding dropped dropping_loop
dropping_write p s = dropped s (dropping_loop p s.readers s.cells)

-- The loop of SkippingStream.Write.
unfoldable pub skipping_loop : List ℕ → List ℕ → (ℕ → ChanReader) → Option (ℕ → ChanReader)
unfolding set_cell push has_room
skipping_loop p [] cells = some cells
skipping_loop p (id ∷ ids) cells =
    let sent = skipping_loop p ids (set_cell cells id (push p (cells id))) in
    let skipped = skipping_loop p ids cells in
    if not (cells id).live then none else if has_room (cells id) then sent else skipped

unfoldable pub skipped_write : BaseStream → Option (ℕ → ChanReader) → Option BaseStream
skipped_write s none = none
skipped_write s (some cells) = some (record s { cells = cells })

unfoldable pub skipping_write : List ℕ → BaseStream → Option BaseStream
unfolding skipped_write skipping_loop
skipping_write p s = skipped_write s (skipping_loop p s.readers s.cells)

unfoldable pub lagging : Bool → ℕ → Round → Round
lagging full id (cells, ids) = if full then (cells, id ∷ ids) else (cells, ids)

-- BlockingStream.tryWrite: the readers that could not take the message, and the store. Readers that
-- are not live are passed over.
unfoldable pub try_write : List ℕ → List ℕ → (ℕ → ChanReader) → Round
unfolding set_cell push has_room lagging
try_write p [] cells = (cells, [])
try_write p (id ∷ ids) cells =
    let sent = (cells id).live && has_room (cells id) in
    lagging ((cells id).live && not (has_room (cells id))) id
      (try_write p ids (if sent then set_cell cells id (push p (cells id)) else cells))
