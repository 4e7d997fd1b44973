-- ===== src/Fs/Server/Dispatch/Authentication.antt =====
-- A connection from its start on, through calls and authentications in any order.
use mathlib.Core.Path.{subst}
use go9p.Base.{some-injective, ℕ, [], Option, none, some, true, ◌≡◌, ◌⊎◌, sym}
use go9p.Proto.Call.{
  FCall, get_tag, trversion, tauth, tattach, tflush, twalk, topen, tcreate, tread, twrite, tclunk,
  tremove, tstat, twstat,
}
use go9p.Serve.{dispatch, finish, handled, handle_call}
use go9p.Fs.Result.{Text, Result, ok}
use go9p.Fs.Nodes.{Nodes, FileSystem}
use go9p.Fs.Server.{server, take_context}
use go9p.Fs.Server.Conn.{FidInfo, Conn, new_conn, State, Step}
use go9p.Fs.Server.Conn.Trust.{TrustedIfBound, AllTrusted}
use go9p.Fs.Server.Session.{version, authenticated}
use go9p.Fs.Server.Data.{read, write}
use go9p.Fs.Server.Attributes.{stat_fid, wstat}
use go9p.Fs.Server.Session.Trust.{auth-Keeps, attach-Keeps, clunk-Keeps, authenticated-AllTrusted}
use go9p.Fs.Server.Walk.Trust.{walk-Keeps}
use go9p.Fs.Server.Files.Trust.{open-Keeps, create-Keeps, remove-Keeps}
use go9p.Fs.Server.Fids.{version-frame, read-frame, write-frame, wstat-frame, stat-frame}
use go9p.Fs.Server.Dispatch.{fids-finish}

module _ {W N : Type 0} (nodes : Nodes W N) (fs : FileSystem W N) (Proved : Text → Type 0) where
  -- What can happen on a connection: a call, authFunc returning on the goroutine of an afid (with a
  -- name only if it is proved), and whatever other connections do to the world.
  pub data Reached : State W N → Type 0 where
    start : (id : ℕ) (w : W) → Reached (record { conn = new_conn id; world = w })
    call : {s : State W N} → Reached s → (f : FCall) → Reached (handle_call (server nodes fs) f s).1
    auth_done :
        {s : State W N} (afid : ℕ) (r : Result Text)
        → Reached s
        → ((name : Text) → r ≡ ok name → Proved name)
        → Reached (authenticated nodes fs afid r s)
    elsewhere : {s : State W N} → Reached s → (w : W) → Reached (record s { world = w })

  same-AllTrusted :
      (c c' : Conn N)
      → ((k : ℕ) → c'.fids k ≡ c.fids k)
      → AllTrusted Proved c
      → AllTrusted Proved c'
  same-AllTrusted c c' same h k = subst (TrustedIfBound Proved) (sym (same k)) (h k)

  KeepsIf : Option (Step W N) → Type 0
  KeepsIf none = Unit
  KeepsIf (some r) = AllTrusted Proved r.1.conn

  dispatch-KeepsIf :
      (f : FCall) (s : State W N)
      → fs.has_auth ≡ true
      → AllTrusted Proved s.conn
      → KeepsIf (dispatch (server nodes fs) f s)
  unfolding KeepsIf dispatch
  dispatch-KeepsIf (trversion t) s a h =
      same-AllTrusted s.conn (version nodes fs t s).1.conn (λ k. version-frame nodes fs k s t) h
  dispatch-KeepsIf (tauth t) s a h = (auth-Keeps nodes fs Proved t s h).kept
  dispatch-KeepsIf (tattach t) s a h = (attach-Keeps nodes fs Proved t s a h).kept
  dispatch-KeepsIf (tflush t) s a h = h
  dispatch-KeepsIf (twalk t) s a h = (walk-Keeps nodes fs Proved t s h).kept
  dispatch-KeepsIf (topen t) s a h = (open-Keeps nodes fs Proved t s h).kept
  dispatch-KeepsIf (tcreate t) s a h = (create-Keeps nodes fs Proved t s h).kept
  dispatch-KeepsIf (tread t) s a h =
      same-AllTrusted s.conn (read nodes t s).1.conn (λ k. read-frame nodes fs k s t) h
  dispatch-KeepsIf (twrite t) s a h =
      same-AllTrusted s.conn (write nodes t s).1.conn (λ k. write-frame nodes fs k s t) h
  dispatch-KeepsIf (tclunk t) s a h = (clunk-Keeps nodes fs Proved t s h).kept
  dispatch-KeepsIf (tremove t) s a h = (remove-Keeps nodes fs Proved t s h).kept
  dispatch-KeepsIf (tstat t) s a h =
      same-AllTrusted s.conn (stat_fid nodes fs t s).1.conn (λ k. stat-frame nodes fs k s t) h
  dispatch-KeepsIf (twstat t) s a h =
      same-AllTrusted s.conn (wstat nodes fs t s).1.conn (λ k. wstat-frame nodes fs k s t) h
  dispatch-KeepsIf _ s a h = tt

  handled-AllTrusted :
      (tag ctx : ℕ) (s : State W N) (o : Option (Step W N))
      → AllTrusted Proved s.conn
      → KeepsIf o
      → AllTrusted Proved (handled (server nodes fs) tag ctx s o).1.conn
  unfolding handled KeepsIf
  handled-AllTrusted tag ctx s none h k = h
  handled-AllTrusted tag ctx s (some r) h k =
      same-AllTrusted r.1.conn (finish (server nodes fs) tag ctx r).1.conn
        (λ k. fids-finish nodes fs tag ctx k r) k

  call-AllTrusted :
      (f : FCall) (s : State W N)
      → fs.has_auth ≡ true
      → AllTrusted Proved s.conn
      → AllTrusted Proved (handle_call (server nodes fs) f s).1.conn
  unfolding handle_call take_context
  call-AllTrusted f s a h = handled-AllTrusted (get_tag f) _ _ _ h (dispatch-KeepsIf f _ a h)

  Reached-AllTrusted : {s : State W N} → fs.has_auth ≡ true → Reached s → AllTrusted Proved s.conn
  unfolding new_conn
  Reached-AllTrusted a (start id w) = λ k. tt
  Reached-AllTrusted a (call r f) = call-AllTrusted f _ a (Reached-AllTrusted a r)
  Reached-AllTrusted a (auth_done afid x r p) =
      authenticated-AllTrusted nodes fs Proved afid x _ p (Reached-AllTrusted a r)
  Reached-AllTrusted a (elsewhere r w) = Reached-AllTrusted a r

  user_of :
      (o : Option (FidInfo N)) (info : FidInfo N)
      → TrustedIfBound Proved o
      → o ≡ some info
      → (info.uname ≡ []) ⊎ Proved info.uname
  user_of none info t e = absurd cc
  user_of (some i) info t e =
      subst (λ i. (i.uname ≡ []) ⊎ Proved i.uname) (some-injective i info e) t.user

  -- On a server with authentication, after any sequence of calls and authentications, every fid of
  -- the connection acts for a user whose name authFunc has returned, or for no user at all.
  pub Reached-proved :
      (s : State W N) (k : ℕ) (info : FidInfo N)
      → fs.has_auth ≡ true
      → Reached s
      → s.conn.fids k ≡ some info
      → (info.uname ≡ []) ⊎ Proved info.uname
  Reached-proved s k info a r e = user_of (s.conn.fids k) info (Reached-AllTrusted a r k) e
