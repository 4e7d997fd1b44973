-- ===== src/Fs/Streams/Delivery/Blocking.antt =====
-- BlockingStream.Write of fs/streams.go, whose rounds stand between the steps of other goroutines.
use go9p.Base.{
  ℕ, List, [], ◌∷◌, ◌++◌, Bool, true, false, not, ◌&&◌, ◌==◌, if◌then◌else◌, ◌≡◌, refl, sym, ap,
  ◌∙◌, arith, ◌⊎◌, inl, inr, append_assoc, ==_refl,
}
use mathlib.Core.Path.{subst}
use go9p.Fs.Streams.Base.{set_cell, close_cell}
use go9p.Fs.Streams.{ChanReader, chan_close}
use go9p.Fs.Streams.Writing.{has_room, try_write}
use go9p.Fs.Streams.Delivery.{has, Distinct, has-same, same-or-not, set_cell-as}
use go9p.Fs.Streams.Delivery.Rounds.{
  live-round, Distinct-round, lags_in, queue-round, sent-once, sent-not, sent-most,
}

-- A Write while it runs: the store, the readers that are still to be sent to, and the messages that
-- each reader has taken off its channel since the Write began.
pub record Progress : Type 0 where
  pub cells : ℕ → ChanReader
  pub laggers : List ℕ
  pub taken : ℕ → List (List ℕ)

-- A reader after it received the first message of its channel.
unfoldable pub received : List (List ℕ) → List ℕ → ChanReader → ChanReader
received rest unread r = record r { queue = rest; unread = unread }

unfoldable pub took : (ℕ → List (List ℕ)) → ℕ → List ℕ → ℕ → List (List ℕ)
took taken id m j = if id == j then taken id ++ (m ∷ []) else taken j

-- A round of tryWrite; a Read of another goroutine that takes a message off a channel, and may have
-- given a part of it to its caller; a reader that is closed. No other Write sends to the readers,
-- since writeLock is held.
pub data WriteMove (p : List ℕ) : Progress → Progress → Type 0 where
  round :
      (g : Progress)
      → WriteMove p g (record g {
        cells = (try_write p g.laggers g.cells).0;
        laggers = (try_write p g.laggers g.cells).1;
      })
  receive :
      (g : Progress) (id : ℕ) (m : List ℕ) (rest : List (List ℕ)) (unread : List ℕ)
      → (g.cells id).queue ≡ m ∷ rest
      → WriteMove p g (record g {
        cells = set_cell g.cells id (received rest unread (g.cells id));
        taken = took g.taken id m;
      })
  close_reader :
      (g : Progress) (id : ℕ) → WriteMove p g (record g { cells = close_cell id g.cells })

-- What a Write comes to that begins with these readers and this store. It returns when there are no
-- laggers.
pub data WriteReached (p : List ℕ) (readers : List ℕ) (cells : ℕ → ChanReader)
    : Progress → Type 0 where
  began :
      WriteReached p readers cells (record { cells = cells; laggers = readers; taken = λ id. [] })
  went_on :
      (g g' : Progress)
      → WriteReached p readers cells g
      → WriteMove p g g'
      → WriteReached p readers cells g'

-- What has come to a reader since the Write began, with what its channel had then.
abbrev pub had : Progress → ℕ → List (List ℕ)
had g id = g.taken id ++ (g.cells id).queue

-- A lagger has what its channel had; any other reader has the message behind it, or it is closed.
record Fair (p : List ℕ) (readers : List ℕ) (cells : ℕ → ChanReader) (g : Progress) : Type 0 where
  distinct : Distinct g.laggers
  none_yet : (id : ℕ) → has g.laggers id ≡ true → had g id ≡ (cells id).queue
  at_most : (id : ℕ) → (had g id ≡ (cells id).queue) ⊎ (had g id ≡ (cells id).queue ++ (p ∷ []))
  once :
      (id : ℕ)
      → has readers id ≡ true
      → has g.laggers id ≡ false
      → (g.cells id).live ≡ true
      → had g id ≡ (cells id).queue ++ (p ∷ [])

still-live : (was now : Bool) → (was ≡ false → now ≡ false) → now ≡ true → was ≡ true
still-live true now closed live = refl
still-live false now closed live = sym (closed refl) ∙ live

-- A step of another goroutine leaves what each reader had, and makes no reader live.
record Others (g g' : Progress) : Type 0 where
  same : (id : ℕ) → had g' id ≡ had g id
  closed : (id : ℕ) → (g.cells id).live ≡ false → (g'.cells id).live ≡ false

module _ (g : Progress) (id : ℕ) where
  had-received :
      (m : List ℕ) (rest : List (List ℕ)) (unread : List ℕ)
      → (g.cells id).queue ≡ m ∷ rest
      → took g.taken id m id ++ (set_cell g.cells id (received rest unread (g.cells id)) id).queue
        ≡ had g id
  unfolding took set_cell received
  had-received m rest unread e =
      rw (==_refl id) (append_assoc (g.taken id) (m ∷ []) rest ∙ ap (λ q. g.taken id ++ q) (sym e))

  had-other :
      (m : List ℕ) (r : ChanReader) (j : ℕ)
      → (id == j) ≡ false
      → took g.taken id m j ++ (set_cell g.cells id r j).queue ≡ had g j
  unfolding took set_cell
  had-other m r j e = rw e refl

  Others-receive :
      (m : List ℕ) (rest : List (List ℕ)) (unread : List ℕ)
      → (g.cells id).queue ≡ m ∷ rest
      → Others g (record g {
        cells = set_cell g.cells id (received rest unread (g.cells id));
        taken = took g.taken id m;
      })
  unfolding received
  Others-receive m rest unread e = record {
    same = λ j. elim (same-or-not id j) [
      | inl same ↦
          subst
            (λ k.
              took g.taken id m k
                ++ (set_cell g.cells id (received rest unread (g.cells id)) k).queue
              ≡ had g k)
            same (had-received m rest unread e)
      | inr other ↦ had-other m (received rest unread (g.cells id)) j other
    ];
    closed = λ j gone.
        set_cell-as (λ r. r.live) g.cells id j (received rest unread (g.cells id)) refl ∙ gone;
  }

  Others-close : Others g (record g { cells = close_cell id g.cells })
  unfolding close_cell chan_close
  Others-close = record {
    same = λ j.
        ap (λ q. g.taken j ++ q)
          (set_cell-as (λ r. r.queue) g.cells id j (chan_close (g.cells id)) refl);
    closed = λ j gone. ground (arith, gone);
  }

Fair-Others :
    (p : List ℕ) (readers : List ℕ) (cells : ℕ → ChanReader) (g : Progress) (now : ℕ → ChanReader)
    (taken : ℕ → List (List ℕ))
    → Others g (record g { cells = now; taken = taken })
    → Fair p readers cells g
    → Fair p readers cells (record g { cells = now; taken = taken })
Fair-Others p readers cells g now taken o h = record {
  distinct = h.distinct;
  none_yet = λ id lag. o.same id ∙ h.none_yet id lag;
  at_most = λ id.
      subst (λ q. (q ≡ (cells id).queue) ⊎ (q ≡ (cells id).queue ++ (p ∷ []))) (sym (o.same id))
        (h.at_most id);
  once = λ id mem gone live.
      o.same id
      ∙ h.once id mem gone (still-live (g.cells id).live (now id).live (o.closed id) live);
}

Fair-round :
    (p : List ℕ) (readers : List ℕ) (cells : ℕ → ChanReader) (g g' : Progress)
    → WriteMove p g g'
    → Fair p readers cells g
    → Fair p readers cells g'
Fair-round p readers cells g _ (round _) h = record {
  distinct = Distinct-round p g.laggers g.cells h.distinct;
  none_yet = λ id lag.
      queue-round p g.laggers g.cells id h.distinct (g.taken id)
      ∙ sent-not p (cells id).queue (has g.laggers id) (g.cells id).live (has_room (g.cells id))
          (had g id) (sym (lags_in p g.laggers g.cells id h.distinct) ∙ lag) (h.none_yet id);
  at_most = λ id.
      subst (λ q. (q ≡ (cells id).queue) ⊎ (q ≡ (cells id).queue ++ (p ∷ [])))
        (sym (queue-round p g.laggers g.cells id h.distinct (g.taken id)))
        (sent-most p (cells id).queue (has g.laggers id)
          ((g.cells id).live && has_room (g.cells id)) (had g id) (h.none_yet id) (h.at_most id));
  once = λ id mem gone live.
      let was : (g.cells id).live ≡ true =
        sym (live-round p g.laggers g.cells id h.distinct) ∙ live in
      queue-round p g.laggers g.cells id h.distinct (g.taken id)
      ∙ sent-once p (cells id).queue (has g.laggers id) (g.cells id).live (has_room (g.cells id))
          (had g id) (sym (lags_in p g.laggers g.cells id h.distinct) ∙ gone) was (h.none_yet id)
          (λ out. h.once id mem out was);
}
Fair-round p readers cells g _ (receive _ id m rest unread e) h =
    Fair-Others p readers cells g _ _ (Others-receive g id m rest unread e) h
Fair-round p readers cells g _ (close_reader _ id) h =
    Fair-Others p readers cells g _ g.taken (Others-close g id) h

Fair-began :
    (p : List ℕ) (readers : List ℕ) (cells : ℕ → ChanReader)
    → Distinct readers
    → Fair p readers cells (record { cells = cells; laggers = readers; taken = λ id. [] })
Fair-began p readers cells d = record {
  distinct = d;
  none_yet = λ id lag. refl;
  at_most = λ id. inl refl;
  once = λ id mem gone live. ground arith;
}

Fair-Reached :
    (p : List ℕ) (readers : List ℕ) (cells : ℕ → ChanReader) (g : Progress)
    → Distinct readers
    → WriteReached p readers cells g
    → Fair p readers cells g
Fair-Reached p readers cells _ d began = Fair-began p readers cells d
Fair-Reached p readers cells _ d (went_on g g' reached move) =
    Fair-round p readers cells g g' move (Fair-Reached p readers cells g d reached)

-- When a Write to a BlockingStream with distinct readers returns, whatever Reads and closes ran
-- between its rounds, each reader of the stream that is still live has had, from its channel, the
-- messages that were in it at the beginning and then the message of the Write, once; and any other
-- has had those messages, and the message of the Write behind them at most once.
pub sends-once :
    (p : List ℕ) (readers : List ℕ) (cells : ℕ → ChanReader) (g : Progress) (id other : ℕ)
    → Distinct readers
    → WriteReached p readers cells g
    → g.laggers ≡ []
    → has readers id ≡ true
    → (g.cells id).live ≡ true
    → (had g id ≡ (cells id).queue ++ (p ∷ []))
      × ((had g other ≡ (cells other).queue) ⊎ (had g other ≡ (cells other).queue ++ (p ∷ [])))
sends-once p readers cells g id other d reached done mem live =
    let h = Fair-Reached p readers cells g d reached in
    (h.once id mem (ap (λ js. has js id) done) live, h.at_most other)

none-left : (ids : List ℕ) → ((id : ℕ) → has ids id ≡ false) → ids ≡ []
none-left [] out = refl
none-left (j ∷ js) out = ground (arith, has-same j js, out j)

room-for : (lag full : Bool) → (lag ≡ true → full ≡ false) → (lag && full) ≡ false
room-for true full free = free refl
room-for false full free = refl

-- A Write to a BlockingStream with distinct readers is over with its next round when every reader
-- that it still has to send to is closed or has room; and then every reader of the stream that is
-- live has had the messages that were in its channel when the Write began and then the message of
-- the Write, once, whatever Reads and closes ran before.
pub write-ends :
    (p : List ℕ) (readers : List ℕ) (cells : ℕ → ChanReader) (g : Progress) (id : ℕ)
    → Distinct readers
    → WriteReached p readers cells g
    → ((j : ℕ) → has g.laggers j ≡ true → ((g.cells j).live && not (has_room (g.cells j))) ≡ false)
    → has readers id ≡ true
    → (g.cells id).live ≡ true
    → ((try_write p g.laggers g.cells).1 ≡ [])
      × (g.taken id ++ ((try_write p g.laggers g.cells).0 id).queue ≡ (cells id).queue ++ (p ∷ []))
write-ends p readers cells g id d reached free mem live =
    let laggers = (Fair-Reached p readers cells g d reached).distinct in
    let over : (try_write p g.laggers g.cells).1 ≡ [] = none-left _ (λ j.
      lags_in p g.laggers g.cells j laggers
      ∙ room-for (has g.laggers j) ((g.cells j).live && not (has_room (g.cells j))) (free j)) in
    (
      over,
      (sends-once p readers cells _ id id d (went_on g _ reached (round g)) over mem
          (live-round p g.laggers g.cells id laggers ∙ live)).0,
    )
