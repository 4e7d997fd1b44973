-- ===== src/Fs/Streams.antt =====
-- fs/streams.go: the channel of one reader of a stream, and what Read and Close do on it.
pub mod Reading
pub mod Base
pub mod Writing
pub mod Delivery
pub mod Files
pub mod Single
use go9p.Base.{
  ℕ, zero, suc, ◌+◌, ◌-◌, List, [], ◌∷◌, ◌++◌, length, take, drop, Bool, true, false, ◌==◌, leb,
  ltb, if◌then◌else◌,
}

-- A chanReader. `queue` is what the channel `read` holds, at most `size` messages; the channel is
-- closed when the reader is not live.
pub record ChanReader : Type 0 where
  pub queue : List (List ℕ)
  pub size : ℕ
  pub unread : List ℕ
  pub live : Bool

-- What an operation on channels comes to. `blocks`: it waits for another goroutine.
pub data Wait (A : Type 0) : Type 0 where
  returns : A → Wait A
  -- io.EOF
  ends : Wait A
  blocks : Wait A

-- `n > 0` once something was copied: then Read returns when the channel is empty. Otherwise it
-- waits, or returns 0, nil if the channel is closed.
at_empty : ChanReader → List ℕ → Wait (List ℕ × ChanReader)
at_empty r [] = if r.live then blocks else returns ([], record r { unread = []; queue = [] })
at_empty r (b ∷ bs) = returns (b ∷ bs, record r { unread = []; queue = [] })

-- The loop of Read from where `unread` is used up: `got` is copied, and there is room for more.
pull : ChanReader → ℕ → List ℕ → List (List ℕ) → Wait (List ℕ × ChanReader)
unfolding at_empty
pull r room got [] = at_empty r got
pull r room got (bs ∷ queue) =
    let rest = pull r (room - length bs) (got ++ bs) queue in
    if leb room (length bs)
    then returns (got ++ take room bs, record r { unread = drop room bs; queue = queue })
    else rest

-- chanReader.Read into a slice of `room` bytes.
unfoldable pub chan_read : ℕ → ChanReader → Wait (List ℕ × ChanReader)
unfolding pull
chan_read room r =
    if leb room (length r.unread)
    then returns (take room r.unread, record r { unread = drop room r.unread })
    else pull r (room - length r.unread) r.unread r.queue

-- chanReader.Close
unfoldable pub chan_close : ChanReader → ChanReader
chan_close r = record r { live = false }
