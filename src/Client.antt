-- ===== src/Client.antt =====
-- client/client.go: the state of a Client, its tags and fids, and the exchange of one call.
--
-- A goroutine runs alone up to its answer, and the worker, which hands the answer over and then gives
-- the tag back, is done with both before the goroutine goes on. What other interleavings do to the
-- tags is in Tags. The goroutines that clunk fids wait in `background`, and run at any later time.
pub mod Tags
pub mod Answers
pub mod Transfer
pub mod Wire
pub mod Run
pub mod Paths
pub mod Files
pub mod Session
pub mod Names
pub mod Dirs
use go9p.Base.{
  ℕ, ◌+◌, ◌%◌, ◌^◌, List, [], ◌∷◌, Option, none, some, Bool, true, false, not, ◌==◌, if◌then◌else◌,
  bytes,
}
use go9p.Proto.Call.{FCall, get_tag}
use go9p.Proto.Marshal.Parser.{ParseError}
use go9p.Fs.Result.{Text}

pub record Client : Type 0 where
  -- The slices that serve as stacks, their last element first.
  pub tags : List ℕ
  pub last_tag : ℕ
  pub fids : List ℕ
  pub last_fid : ℕ
  -- The tags that have a channel.
  pub calls : List ℕ
  pub tag_fids : List (ℕ × ℕ)
  pub closed : Bool
  pub path_cache : List (Text × ℕ)
  pub msize : ℕ
  -- the goroutines of clunkFid that have not run yet, each with its fid and its call
  pub background : List (ℕ × FCall)

-- _NOFID
abbrev pub nofid : ℕ
nofid = 0xFFFFFFFF

-- Client.rootFid, which nothing changes.
abbrev pub root_fid : ℕ
root_fid = 0

-- `delete(m, k)` and `m[k] = v` on a map from numbers.
unfoldable pub delete_key : List (ℕ × ℕ) → ℕ → List (ℕ × ℕ)
delete_key [] k = []
delete_key ((j, v) ∷ m) k = if j == k then delete_key m k else (j, v) ∷ delete_key m k

unfoldable pub set_key : List (ℕ × ℕ) → ℕ → ℕ → List (ℕ × ℕ)
set_key m k v = (k, v) ∷ delete_key m k

-- The same on the keys alone.
unfoldable pub delete_call : List ℕ → ℕ → List ℕ
delete_call [] k = []
delete_call (j ∷ m) k = if j == k then delete_call m k else j ∷ delete_call m k

unfoldable pub has_call : List ℕ → ℕ → Bool
has_call [] k = false
has_call (j ∷ m) k = if j == k then true else has_call m k

unfoldable pub tag_taken : Client → ℕ → List ℕ → ℕ × Client
tag_taken c fid [] = let tag = (c.last_tag + 1) % 2 ^ 16 in (tag, record c { last_tag = tag })
tag_taken c fid (tag ∷ tags) =
    (tag, record c { tags = tags; tag_fids = set_key c.tag_fids tag fid })

-- takeTag and lockedTakeTag. A tag that was never used is not entered in tagFids.
unfoldable pub take_tag : ℕ → Client → ℕ × Client
unfolding tag_taken
take_tag fid c = tag_taken c fid c.tags

unfoldable pub return_tag : ℕ → Client → Client
return_tag tag c = if tag == 0 then c else record c {
  tags = tag ∷ c.tags;
  calls = delete_call c.calls tag;
  tag_fids = delete_key c.tag_fids tag;
}

fid_taken : Client → List ℕ → ℕ × Client
fid_taken c [] = let fid = (c.last_fid + 1) % 2 ^ 32 in (fid, record c { last_fid = fid })
fid_taken c (fid ∷ fids) = (fid, record c { fids = fids })

unfoldable pub take_fid : Client → ℕ × Client
unfolding fid_taken
take_fid c = fid_taken c c.fids

unfoldable pub return_fid : ℕ → Client → Client
return_fid fid c = record c { fids = fid ∷ c.fids }

-- What becomes of the bytes of a call: Compose panics, the connection does not take them, the
-- frame that ParseCall reads next, or none.
pub data Delivery : Type 0 where
  uncomposed : Delivery
  unsent : Delivery
  received : FCall → Delivery
  silent : Delivery

pub data GoError : Type 0 where
  message : Text → GoError
  eof : GoError
  -- the error of the connection's Write
  write_error : GoError
  -- an error that a parser of proto/ returned
  parse_error : ParseError → GoError

-- How a piece of the client ends. `blocked`: it waits for a channel that nobody sends on.
pub data Outcome (A : Type 0) : Type 0 where
  done : A → Outcome A
  failed : GoError → Outcome A
  panicked : Outcome A
  blocked : Outcome A
  -- the fuel of a loop is used up
  unfinished : Outcome A

-- The client with what is behind the connection.
pub record World (S : Type 0) : Type 0 where
  pub client : Client
  pub peer : S

-- What getResponse returns.
pub data Response : Type 0 where
  replied : FCall → Response
  lost : GoError → Response

-- One turn of worker, for the goroutine that waits for `tag`: a frame without a channel is dropped,
-- one with another channel goes to nobody that reads it. The code hands the answer over first, and
-- gives the tag back after it; here the goroutine has not gone on in between.
unfoldable pub worker : ℕ → FCall → Client → Outcome Response × Client
worker tag f c =
    if not (has_call c.calls (get_tag f))
    then (blocked, c)
    else if get_tag f == tag
    then (done (replied f), return_tag tag c)
    else (blocked, c)

module _ {S : Type 0} where
  worked : S → Outcome Response × Client → Outcome Response × World S
  worked s (o, c) = (o, record { client = c; peer = s })

  delivered : ℕ → Client → Delivery × S → Outcome Response × World S
  unfolding worked
  delivered tag c (uncomposed, s) = (panicked, record { client = c; peer = s })
  delivered tag c (unsent, s) = (done (lost write_error), record { client = c; peer = s })
  delivered tag c (received f, s) = worked s (worker tag f c)
  delivered tag c (silent, s) = (blocked, record { client = c; peer = s })

  -- `send` writes the call to the connection and reads the next frame from it.
  unfoldable pub get_response :
      (FCall → S → Delivery × S) → FCall → World S → Outcome Response × World S
  unfolding delivered
  get_response send f w =
      let calls = get_tag f ∷ delete_call w.client.calls (get_tag f) in
      delivered (get_tag f) (record w.client { calls = calls }) (send f w.peer)
