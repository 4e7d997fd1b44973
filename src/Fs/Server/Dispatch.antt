-- ===== src/Fs/Server/Dispatch.antt =====
-- What one call through server.go can do to the fids of a connection.
pub mod Authentication
use go9p.Base.{ℕ, Option, none, some, ◌≡◌, ◌≢◌, refl, arith, ◌∙◌, ap, bytes}
use go9p.Proto.Messages.Clunk.{TClunk}
use go9p.Proto.Call.{
  FCall, get_tag, header_of, trversion, tauth, tattach, tflush, twalk, topen, tcreate, tread,
  twrite, tclunk, tremove, tstat, twstat,
}
use go9p.Serve.{Reply, reply, fail, crash, dispatch, finish, handled, handle_call}
use go9p.Fs.Nodes.{Nodes, FileSystem}
use go9p.Fs.Server.{server, take_context, release_context}
use go9p.Fs.Server.Conn.{State, delete, error_reply}
use go9p.Fs.Server.Session.{clunk}
use go9p.Fs.Server.Fids.{
  walk-bad_fid, open-bad_fid, create-bad_fid, read-bad_fid, write-bad_fid, stat-bad_fid,
  wstat-bad_fid, remove-bad_fid,
}
use go9p.Fs.Server.Fids.{
  open-frame, create-frame, clunk-frame, remove-frame, attach-frame, auth-frame, walk-frame,
  version-frame, read-frame, write-frame, wstat-frame, stat-frame,
}

-- The call does not bind, open, create on, or release the fid `k`.
abbrev pub Spares : FCall → ℕ → Type 0
Spares (tauth t) k = k ≢ t.afid
Spares (tattach t) k = k ≢ t.fid
Spares (twalk t) k = k ≢ t.newfid
Spares (topen t) k = k ≢ t.fid
Spares (tcreate t) k = k ≢ t.fid
Spares (tclunk t) k = k ≢ t.fid
Spares (tremove t) k = k ≢ t.fid
Spares _ k = Unit

-- The call works on the fid, and is not one that binds it or gives it back unseen.
abbrev pub Uses : FCall → ℕ → Type 0
Uses (twalk t) k = t.fid ≡ k
Uses (topen t) k = t.fid ≡ k
Uses (tcreate t) k = t.fid ≡ k
Uses (tread t) k = t.fid ≡ k
Uses (twrite t) k = t.fid ≡ k
Uses (tremove t) k = t.fid ≡ k
Uses (tstat t) k = t.fid ≡ k
Uses (twstat t) k = t.fid ≡ k
Uses _ k = ⊥

module _ {W N : Type 0} (nodes : Nodes W N) (fs : FileSystem W N) where
  Kept : ℕ → State W N → Option (Reply × State W N) → Type 0
  Kept k s none = Unit
  Kept k s (some r) = r.1.conn.fids k ≡ s.conn.fids k

  dispatch-Kept :
      (f : FCall) (k : ℕ) (s : State W N) → Spares f k → Kept k s (dispatch (server nodes fs) f s)
  unfolding Kept dispatch
  dispatch-Kept (trversion t) k s h = version-frame nodes fs k s t
  dispatch-Kept (tauth t) k s h = auth-frame nodes fs k s t h
  dispatch-Kept (tattach t) k s h = attach-frame nodes fs k s t h
  dispatch-Kept (tflush t) k s h = refl
  dispatch-Kept (twalk t) k s h = walk-frame nodes fs k s t h
  dispatch-Kept (topen t) k s h = open-frame nodes fs k s t h
  dispatch-Kept (tcreate t) k s h = create-frame nodes fs k s t h
  dispatch-Kept (tread t) k s h = read-frame nodes fs k s t
  dispatch-Kept (twrite t) k s h = write-frame nodes fs k s t
  dispatch-Kept (tclunk t) k s h = clunk-frame nodes fs k s t h
  dispatch-Kept (tremove t) k s h = remove-frame nodes fs k s t h
  dispatch-Kept (tstat t) k s h = stat-frame nodes fs k s t
  dispatch-Kept (twstat t) k s h = wstat-frame nodes fs k s t
  dispatch-Kept _ k s h = tt

  fids-finish :
      (tag ctx k : ℕ) (r : Reply × State W N)
      → (finish (server nodes fs) tag ctx r).1.conn.fids k ≡ r.1.conn.fids k
  unfolding finish release_context
  fids-finish tag ctx k (crash, s) = refl
  fids-finish tag ctx k (reply f, s) = ground arith
  fids-finish tag ctx k (fail, s) = ground arith

  fids-handled :
      (tag ctx k : ℕ) (s : State W N) (o : Option (Reply × State W N))
      → Kept k s o
      → (handled (server nodes fs) tag ctx s o).1.conn.fids k ≡ s.conn.fids k
  unfolding Kept handled
  fids-handled tag ctx k s none h = refl
  fids-handled tag ctx k s (some r) h = fids-finish tag ctx k r ∙ h

  -- Whatever the call and whatever its outcome, handling it leaves every fid as it was that the
  -- call does not itself bind, open, create on or release.
  pub handle_call-frame :
      (f : FCall) (k : ℕ) (s : State W N)
      → Spares f k
      → (handle_call (server nodes fs) f s).1.conn.fids k ≡ s.conn.fids k
  unfolding handle_call take_context
  handle_call-frame f k s h = fids-handled (get_tag f) _ k _ _ (dispatch-Kept f k _ h)

  bad_fid :
      (f : FCall) (k : ℕ) (s : State W N)
      → Uses f k
      → s.conn.fids k ≡ none
      → dispatch (server nodes fs) f s ≡ some (error_reply (get_tag f) (bytes "Bad Fid."), s)
  unfolding dispatch get_tag header_of
  bad_fid (twalk t) k s h e = ap some (walk-bad_fid nodes fs s t (ap s.conn.fids h ∙ e))
  bad_fid (topen t) k s h e = ap some (open-bad_fid nodes fs s t (ap s.conn.fids h ∙ e))
  bad_fid (tcreate t) k s h e = ap some (create-bad_fid nodes fs s t (ap s.conn.fids h ∙ e))
  bad_fid (tread t) k s h e = ap some (read-bad_fid nodes fs s t (ap s.conn.fids h ∙ e))
  bad_fid (twrite t) k s h e = ap some (write-bad_fid nodes fs s t (ap s.conn.fids h ∙ e))
  bad_fid (tremove t) k s h e = ap some (remove-bad_fid nodes fs s t (ap s.conn.fids h ∙ e))
  bad_fid (tstat t) k s h e = ap some (stat-bad_fid nodes fs s t (ap s.conn.fids h ∙ e))
  bad_fid (twstat t) k s h e = ap some (wstat-bad_fid nodes fs s t (ap s.conn.fids h ∙ e))
  bad_fid _ k s h e = absurd h

  fids-clunk : (t : TClunk) (s : State W N) → (clunk nodes fs t s).1.conn.fids t.fid ≡ none
  unfolding clunk delete
  fids-clunk t s = ground arith

  -- After a clunk, whether it succeeded or not, every Twalk, Topen, Tcreate, Tread, Twrite, Tremove,
  -- Tstat and Twstat of the fid is answered "Bad Fid." and changes nothing.
  pub clunk-releases :
      (t : TClunk) (f : FCall) (s : State W N)
      → Uses f t.fid
      → dispatch (server nodes fs) f (clunk nodes fs t s).1
        ≡ some (error_reply (get_tag f) (bytes "Bad Fid."), (clunk nodes fs t s).1)
  clunk-releases t f s h = bad_fid f t.fid (clunk nodes fs t s).1 h (fids-clunk t s)
