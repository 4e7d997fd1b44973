-- ===== src/Tests/Streams.antt =====
-- Streams, dynamic files and paths at work.
use go9p.Base.{
  ◌++◌, ℕ, ◌⊎◌, suc, ◌+◌, List, [], ◌∷◌, length, take, drop, Option, none, some, true, false, not,
  ◌&&◌, ◌==◌, if◌then◌else◌, ◌≡◌, refl, arith, bytes,
}
use go9p.Fs.Result.{ok}
use go9p.Fs.Streams.{ChanReader, chan_read}
use go9p.Fs.Streams.Reading.{Gives, chan_read-pending}
use go9p.Fs.Streams.Base.{BaseStream, new_stream, stream_read, set_cell}
use go9p.Fs.Streams.Base.Incoming.{Takes, stream_read-order}
use go9p.Fs.Streams.Writing.{try_write, has_room, push}
use go9p.Fs.Streams.Delivery.{has}
use go9p.Fs.Streams.Delivery.Blocking.{
  Progress, received, took, had, WriteReached, began, went_on, round, receive, sends-once,
  write-ends,
}
use go9p.Fs.Dynamic.{DynamicFile, new_dynamic_file, dynamic_open, dynamic_read}
use go9p.Fs.Dynamic.Snapshots.{opens, closes, use_all, dynamic_read-open}
use go9p.Fs.Tree.{full_path}
use go9p.Fs.Tree.Paths.{Lies, at_root, under, full_path-path_of}
use go9p.Fs.Nodes.{Nodes}
use go9p.Tests.Tree.{Place, root, notes, places}
use go9p.Fs.Streams.Single.{
  SingleStream, new_single_stream, reading, SingleReached, fresh, moved, write_buffer, write_signal,
  read_buffer, through, got-put,
}
use go9p.Tests.Files.{stat_of}

abbrev reader_of : List (List ℕ) → ChanReader
reader_of queue = record { queue = queue; size = 2; unread = bytes "a"; live = true }

chan_read-pending_example :
    Gives
      (chan_read 3 (reader_of (bytes "bcd" ∷ [])))
      (reader_of (bytes "bcd" ∷ []))
      (bytes "abc")
      (bytes "d")
chan_read-pending_example =
    chan_read-pending 3 (reader_of (bytes "bcd" ∷ [])) (omega arith) (omega arith)

abbrev cells : ℕ → ChanReader
cells id = reader_of (if id == 1 then bytes "x" ∷ (bytes "y" ∷ []) else [])

-- The reader 1 is full.
abbrev dropper : BaseStream
dropper = record (new_stream 2) { cells = cells; readers = 0 ∷ (1 ∷ []) }

abbrev after_round : Progress → Progress
after_round g = record g {
  cells = (try_write (bytes "z") g.laggers g.cells).0;
  laggers = (try_write (bytes "z") g.laggers g.cells).1;
}

abbrev begun : Progress
begun = record { cells = cells; laggers = 0 ∷ (1 ∷ []); taken = λ id. [] }

-- Another goroutine takes a message off the full channel of the reader 1.
abbrev resumed : Progress
resumed = record (after_round begun) {
  cells =
      set_cell (after_round begun).cells 1
        (received (bytes "y" ∷ []) [] ((after_round begun).cells 1));
  taken = took (λ id. []) 1 (bytes "x");
}

resumed-WriteReached : WriteReached (bytes "z") (0 ∷ (1 ∷ [])) cells resumed
unfolding try_write has_room push set_cell
resumed-WriteReached =
    went_on _ _ (went_on _ _ began (round begun))
      (receive (after_round begun) 1 (bytes "x") (bytes "y" ∷ []) [] refl)

sends-once_example :
    (had (after_round resumed) 1 ≡ bytes "x" ∷ (bytes "y" ∷ (bytes "z" ∷ [])))
    × ((had (after_round resumed) 0 ≡ []) ⊎ (had (after_round resumed) 0 ≡ bytes "z" ∷ []))
unfolding try_write has_room push set_cell received took
sends-once_example =
    sends-once (bytes "z") (0 ∷ (1 ∷ [])) cells (after_round resumed) 1 0 (refl, (refl, tt))
      (went_on _ _ resumed-WriteReached (round resumed)) refl refl refl

resumed-room :
    (id : ℕ)
    → has resumed.laggers id ≡ true
    → ((resumed.cells id).live && not (has_room (resumed.cells id))) ≡ false
unfolding has_room set_cell received try_write push
resumed-room id lag = ground (arith, lag)

write-ends_example :
    ((try_write (bytes "z") resumed.laggers resumed.cells).1 ≡ [])
    × (resumed.taken 1 ++ ((try_write (bytes "z") resumed.laggers resumed.cells).0 1).queue
        ≡ bytes "x" ∷ (bytes "y" ∷ (bytes "z" ∷ [])))
unfolding set_cell received try_write
write-ends_example =
    write-ends (bytes "z") (0 ∷ (1 ∷ [])) cells resumed 1 (refl, (refl, tt)) resumed-WriteReached
      resumed-room refl refl

abbrev fed : BaseStream
fed = record (new_stream 4) { incoming = [] ∷ (bytes "one" ∷ (bytes "two" ∷ [])) }

stream_read-order_example : Takes (stream_read 2 fed) (bytes "onetwo")
unfolding new_stream
stream_read-order_example = stream_read-order 2 fed (omega arith) (omega arith)

-- Contents that count how often they were made.
abbrev counting : DynamicFile ℕ
counting = new_dynamic_file (stat_of (bytes "count") 0 0) (λ n. ((48 + n) ∷ [], suc n))

dynamic_read-open_example :
    dynamic_read
      (use_all
        (dynamic_open counting 3 0 1).0
        (dynamic_open counting 3 0 1).1
        (opens 4 0 ∷ (closes 5 ∷ []))).0
      3
      0
      10
    ≡ ok (take 10 (drop 0 (bytes "1")))
unfolding new_dynamic_file
dynamic_read-open_example =
    dynamic_read-open counting 1 3 0 0 10 (opens 4 0 ∷ (closes 5 ∷ [])) (refl, (refl, tt))
      (omega arith) (omega arith)

abbrev parent_at : Place → Option Place
parent_at root = none
parent_at _ = some root

abbrev rooted : Nodes (Unit {0}) Place
rooted = record places { parent = λ w n. parent_at n }

notes-Lies : Lies rooted tt notes (bytes "notes" ∷ [])
notes-Lies =
    under notes root [] refl (refl, (refl, (refl, (refl, (refl, tt))))) (at_root root refl refl)

full_path-path_of_example : full_path rooted 2 tt notes ≡ some (bytes "/notes")
full_path-path_of_example =
    full_path-path_of rooted tt notes (bytes "notes" ∷ []) 2 notes-Lies (omega arith)

abbrev half_read : SingleStream
half_read = record {
  buffer = bytes "cd";
  writesem = false;
  readsem = false;
  closed = false;
  busy = reading;
  put = bytes "abcd";
  got = bytes "ab";
  reused = false;
}

half_read-SingleReached : SingleReached half_read
unfolding new_single_stream
half_read-SingleReached =
    moved _ half_read
      (moved _ _
        (moved new_single_stream _ fresh (write_buffer new_single_stream (bytes "abcd") refl))
        (write_signal _ refl refl))
      (read_buffer _ 2 refl refl)

got-put_example :
    (length (through half_read) ≡ 4)
    × ((half_read.reused ≡ true) ⊎ (through half_read ≡ bytes "abcd"))
got-put_example = got-put half_read half_read-SingleReached
