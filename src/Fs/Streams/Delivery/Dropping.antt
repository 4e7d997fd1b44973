-- ===== src/Fs/Streams/Delivery/Dropping.antt =====
-- fs/streams.go: what DroppingStream.Write does to each reader.
use go9p.Base.{
  ℕ, List, ◌∷◌, Option, none, some, Bool, true, false, not, ◌&&◌, if◌then◌else◌, ◌≡◌, refl, ap, ◌∙◌,
}
use go9p.Fs.Streams.{ChanReader, chan_close}
use go9p.Fs.Streams.Base.{set_cell, close_cell}
use go9p.Fs.Streams.Writing.{push, has_room, Round, keep, dropping_loop}
use go9p.Fs.Streams.Delivery.{has}

-- What becomes of a reader: it has the message behind the others in its channel, if there is room,
-- and else it is closed.
abbrev pub sent_or_closed : List ℕ → ChanReader → ChanReader
sent_or_closed p r = if has_room r then push p r else chan_close r

-- Every reader of the list is live.
abbrev pub AllLive : List ℕ → (ℕ → ChanReader) → Type 0
AllLive ids cells = (id : ℕ) → has ids id ≡ true → (cells id).live ≡ true

-- The loop ends with these readers and this store.
record Drops (p : List ℕ) (ids : List ℕ) (cells : ℕ → ChanReader) : Type 0 where
  after : Round
  ran : dropping_loop p ids cells ≡ some after
  cell : (id : ℕ) → after.0 id ≡ (if has ids id then sent_or_closed p (cells id) else cells id)
  stays : (id : ℕ) → has after.1 id ≡ (has ids id && has_room (cells id))

staying : Bool → ℕ → List ℕ → List ℕ
staying room j js = if room then j ∷ js else js

module _ (live room : Bool) (sent late : Option Round) where
  if-room :
      live ≡ true → room ≡ true → (if not live then none else if room then sent else late) ≡ sent
  if-room e f = rw (e, f) refl

  if-full :
      live ≡ true → room ≡ false → (if not live then none else if room then sent else late) ≡ late
  if-full e f = rw (e, f) refl

turn :
    (room : Bool) (p : List ℕ) (j : ℕ) (js : List ℕ) (cells : ℕ → ChanReader) (after : Round)
    → (cells j).live ≡ true
    → has_room (cells j) ≡ room
    → dropping_loop p js
        (set_cell cells j (if room then push p (cells j) else chan_close (cells j)))
      ≡ some after
    → dropping_loop p (j ∷ js) cells ≡ some (after.0, staying room j after.1)
unfolding dropping_loop close_cell keep staying
turn true p j js cells after live room ran =
    if-room (cells j).live (has_room (cells j)) _ _ live room ∙ ap (keep j) ran
turn false p j js cells after live room ran =
    if-full (cells j).live (has_room (cells j)) _ _ live room ∙ ran
