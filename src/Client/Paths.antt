-- ===== src/Client/Paths.antt =====
-- client/client.go: walkFid, the path cache, clunkFid, Stat, WStat and Remove; and the functions of
-- Go's strings and path that they use.
use go9p.Base.{
  ℕ, zero, suc, ◌%◌, ◌^◌, List, [], ◌∷◌, length, Option, none, some, ◌==◌, if◌then◌else◌, bytes,
  same_text,
}
use go9p.Proto.Stat.{Stat}
use go9p.Proto.Header.Types.{twalk_type, tclunk_type, tstat_type, twstat_type, tremove_type}
use go9p.Proto.Call.{
  FCall, twalk, rwalk, tclunk, tstat, rstat, twstat, rwstat, tremove, rremove, rerror,
}
use go9p.Fs.Result.{Text}
use go9p.Client.{
  Client, root_fid, Delivery, GoError, message, Outcome, done, blocked, panicked, World, Response,
  replied, lost, take_tag, take_fid, return_fid, get_response,
}
use go9p.Client.Run.{Run, pure, ◌>>=◌, fail, panic, on_client, update_client}

before_part : ℕ → List Text → List Text
before_part b [] = (b ∷ []) ∷ []
before_part b (part ∷ parts) = (b ∷ part) ∷ parts

-- strings.Split(path, "/")
unfoldable pub split_path : Text → List Text
unfolding before_part
split_path [] = [] ∷ []
split_path (b ∷ bs) = if b == 47 then [] ∷ split_path bs else before_part b (split_path bs)

unfoldable pub remove_blank : List Text → List Text
remove_blank [] = []
remove_blank ([] ∷ parts) = remove_blank parts
remove_blank ((b ∷ bs) ∷ parts) = (b ∷ bs) ∷ remove_blank parts

unfoldable pub lookup_path : List (Text × ℕ) → Text → Option ℕ
lookup_path [] path = none
lookup_path ((p, fid) ∷ cache) path = if same_text p path then some fid else lookup_path cache path

unfoldable pub delete_path : List (Text × ℕ) → Text → List (Text × ℕ)
delete_path [] path = []
delete_path ((p, fid) ∷ cache) path =
    if same_text p path then delete_path cache path else (p, fid) ∷ delete_path cache path

unfoldable pub lookup_fid : Text → Client → Option ℕ
lookup_fid path c = lookup_path c.path_cache path

-- `c.pathCache[path] = fid`
unfoldable pub store_fid : Text → ℕ → Client → Client
store_fid path fid c = record c { path_cache = (path, fid) ∷ delete_path c.path_cache path }

unfoldable pub drop_cached_fid : Text → Client → Client
drop_cached_fid path c = record c { path_cache = delete_path c.path_cache path }

-- The calls, as the code makes them with a tag.
unfoldable pub clunk_call : ℕ → ℕ → FCall
clunk_call fid tag =
    tclunk (record { header = record { type = tclunk_type; tag = tag }; fid = fid })

unfoldable pub walk_call : Text → ℕ → ℕ → FCall
walk_call path newfid tag =
    let parts = remove_blank (split_path path) in
    twalk (record {
      header = record { type = twalk_type; tag = tag };
      fid = root_fid;
      newfid = newfid;
      nwname = length parts % 2 ^ 16;
      wname = parts;
    })

unfoldable pub stat_call : ℕ → ℕ → FCall
stat_call fid tag = tstat (record { header = record { type = tstat_type; tag = tag }; fid = fid })

unfoldable pub wstat_call : ℕ → Stat → ℕ → FCall
wstat_call fid st tag =
    twstat (record { header = record { type = twstat_type; tag = tag }; fid = fid; stat = st })

unfoldable pub remove_call : ℕ → ℕ → FCall
remove_call fid tag =
    tremove (record { header = record { type = tremove_type; tag = tag }; fid = fid })

unfoldable pub start_clunk : ℕ → FCall → Client → Client
start_clunk fid f c = record c { background = (fid, f) ∷ c.background }

unfoldable pub picked :
    ℕ × FCall → Option ((ℕ × FCall) × List (ℕ × FCall)) → Option ((ℕ × FCall) × List (ℕ × FCall))
picked g none = none
picked g (some (g', gs)) = some (g', g ∷ gs)

-- One of the goroutines, and the others.
unfoldable pub pick : ℕ → List (ℕ × FCall) → Option ((ℕ × FCall) × List (ℕ × FCall))
unfolding picked
pick i [] = none
pick zero (g ∷ gs) = some (g, gs)
pick (suc i) (g ∷ gs) = picked g (pick i gs)

module _ {S : Type 0} where
  -- The goroutine of clunkFid gives the fid back after any response.
  unfoldable pub clunked : ℕ → Outcome Response × World S → Outcome Unit × World S
  clunked fid (done _, w) = (done tt, record w { client = return_fid fid w.client })
  clunked fid (panicked, w) = (panicked, w)
  clunked fid (_, w) = (done tt, w)

  -- The caller goes on with the tag of the clunk held, and the goroutine runs later.
  unfoldable pub clunk_fid : ℕ → Run S Unit
  unfolding start_clunk
  clunk_fid fid =
      if fid == 0
      then panic
      else do tag ← on_client (take_tag 0); update_client (start_clunk fid (clunk_call fid tag))

module _ {S : Type 0} (send : FCall → S → Delivery × S) where
  unfoldable pub clunk_running : Option ((ℕ × FCall) × List (ℕ × FCall)) → Run S Unit
  unfolding clunked
  clunk_running none w = (done tt, w)
  clunk_running (some ((fid, f), gs)) w =
      clunked fid (get_response send f (record w { client = record w.client { background = gs } }))

  -- One of the goroutines of clunkFid runs, up to the answer.
  unfoldable pub clunk_in_background : ℕ → Run S Unit
  unfolding clunk_running pick
  clunk_in_background i w = clunk_running (pick i w.client.background) w

module _ {S : Type 0} where
  -- What the code does with a fid of its own when a call on it went wrong.
  unfoldable pub give_up : {A : Type 0} → ℕ → GoError → Run S A
  give_up fid e = do _ ← clunk_fid fid; fail e

module _ {S : Type 0} (send : FCall → S → Delivery × S) where
  unfoldable pub walked : ℕ → Response → Run S ℕ
  walked newfid (replied (rwalk r)) = pure newfid
  walked newfid (replied (rerror r)) = give_up newfid (message r.ename)
  walked newfid (replied _) = give_up newfid (message (bytes "Unexpected response to TWalk."))
  walked newfid (lost e) = give_up newfid e

  unfoldable pub walk_fid : Text → Run S ℕ
  unfolding walked
  walk_fid path = do
    newfid ← on_client take_fid
    tag ← on_client (take_tag root_fid)
    res ← get_response send (walk_call path newfid tag)
    walked newfid res

  unfoldable pub walk_and_cache : Text → Option ℕ → Run S ℕ
  walk_and_cache path (some fid) = pure fid
  walk_and_cache path none = do
    fid ← walk_fid path
    _ ← update_client (store_fid path fid)
    pure fid

  unfoldable pub cache_fid : Text → Run S ℕ
  unfolding walk_and_cache
  cache_fid path w = walk_and_cache path (lookup_fid path w.client) w

  unfoldable pub stat_response : Response → Run S Stat
  stat_response (replied (rstat r)) = pure r.stat
  stat_response (replied (rerror r)) = fail (message r.ename)
  stat_response (replied _) = fail (message (bytes "Unexpected response to RStat."))
  stat_response (lost e) = fail e

  unfoldable pub stat : Text → Run S Stat
  unfolding stat_response
  stat path = do
    fid ← cache_fid path
    tag ← on_client (take_tag fid)
    res ← get_response send (stat_call fid tag)
    stat_response res

  -- The text of the last error has the response in it, which is left out here.
  unfoldable pub wstat_response : Response → Run S Unit
  wstat_response (replied (rwstat r)) = pure tt
  wstat_response (replied (rerror r)) = fail (message r.ename)
  wstat_response (replied _) = fail (message (bytes "Unexpected response to RWstat"))
  wstat_response (lost e) = fail e

  unfoldable pub wstat : Text → Stat → Run S Unit
  unfolding wstat_response
  wstat path st = do
    fid ← cache_fid path
    tag ← on_client (take_tag fid)
    res ← get_response send (wstat_call fid st tag)
    wstat_response res

  unfoldable pub remove_response : ℕ → Response → Run S Unit
  remove_response fid (replied (rremove r)) = pure tt
  remove_response fid (replied (rerror r)) = give_up fid (message r.ename)
  remove_response fid (replied _) = fail (message (bytes "Unexpected response to TRemove."))
  remove_response fid (lost e) = fail e

  unfoldable pub remove_walked : ℕ → Run S Unit
  unfolding remove_response
  remove_walked fid = do
    tag ← on_client (take_tag fid)
    res ← get_response send (remove_call fid tag)
    remove_response fid res

module _ {S A : Type 0} where
  -- `defer`: the client is changed however the body ends, unless it never does.
  unfoldable pub after : (Client → Client) → Outcome A × World S → Outcome A × World S
  after f (blocked, w) = (blocked, w)
  after f (o, w) = (o, record w { client = f w.client })

  unfoldable pub deferring : (Client → Client) → Run S A → Run S A
  unfolding after
  deferring f m w = after f (m w)

module _ {S : Type 0} (send : FCall → S → Delivery × S) where
  unfoldable pub remove : Text → Run S Unit
  unfolding remove_walked
  remove path =
      deferring (drop_cached_fid path)
        (do fid ← walk_fid send path; deferring (return_fid fid) (remove_walked send fid))
