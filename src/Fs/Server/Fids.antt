-- ===== src/Fs/Server/Fids.antt =====
-- Which fids a call can change.
use go9p.Base.{ℕ, none, if◌then◌else◌, ◌==◌, ◌≡◌, ◌≢◌, ap, ◌∙◌, arith}
use go9p.Proto.Messages.Version.{TrVersion}
use go9p.Proto.Messages.Auth.{TAuth}
use go9p.Proto.Messages.Attach.{TAttach}
use go9p.Proto.Messages.Walk.{TWalk}
use go9p.Proto.Messages.Open.{TOpen}
use go9p.Proto.Messages.Create.{TCreate}
use go9p.Proto.Messages.Read.{TRead}
use go9p.Proto.Messages.Write.{TWrite}
use go9p.Proto.Messages.Clunk.{TClunk}
use go9p.Proto.Messages.Remove.{TRemove}
use go9p.Proto.Messages.StatCall.{TStat}
use go9p.Proto.Messages.Wstat.{TWstat}
use go9p.Fs.Nodes.{Nodes, FileSystem}
use go9p.Fs.Server.Conn.{store, delete, State, error_reply}
use go9p.Base.{bytes}
use go9p.Fs.Server.Session.{version, auth, attach, clunk}
use go9p.Fs.Server.Walk.{walk}
use go9p.Fs.Server.Files.{open_fid, create, remove}
use go9p.Fs.Server.Data.{read, write}
use go9p.Fs.Server.Attributes.{stat_fid, wstat}

module _ {W N : Type 0} (nodes : Nodes W N) (fs : FileSystem W N) (k : ℕ) (s : State W N) where
  pub open-frame : (t : TOpen) → k ≢ t.fid → (open_fid nodes fs t s).1.conn.fids k ≡ s.conn.fids k
  unfolding open_fid store
  open-frame t h = ground arith

  pub create-frame : (t : TCreate) → k ≢ t.fid → (create nodes fs t s).1.conn.fids k ≡ s.conn.fids k
  unfolding create store
  create-frame t h = ground arith

  pub clunk-frame : (t : TClunk) → k ≢ t.fid → (clunk nodes fs t s).1.conn.fids k ≡ s.conn.fids k
  unfolding clunk delete
  clunk-frame t h = ground arith

  pub remove-frame : (t : TRemove) → k ≢ t.fid → (remove nodes fs t s).1.conn.fids k ≡ s.conn.fids k
  unfolding remove delete
  remove-frame t h = ground arith

  pub attach-frame : (t : TAttach) → k ≢ t.fid → (attach nodes fs t s).1.conn.fids k ≡ s.conn.fids k
  unfolding attach store
  attach-frame t h = ground arith

  pub auth-frame : (t : TAuth) → k ≢ t.afid → (auth nodes fs t s).1.conn.fids k ≡ s.conn.fids k
  unfolding auth store
  auth-frame t h = ground arith

  pub walk-frame : (t : TWalk) → k ≢ t.newfid → (walk nodes fs t s).1.conn.fids k ≡ s.conn.fids k
  unfolding walk store
  walk-frame t h = ground arith

  pub version-frame : (t : TrVersion) → (version nodes fs t s).1.conn.fids k ≡ s.conn.fids k
  unfolding version
  version-frame t = ground arith

  pub read-frame : (t : TRead) → (read nodes t s).1.conn.fids k ≡ s.conn.fids k
  unfolding read
  read-frame t = ground arith

  pub write-frame : (t : TWrite) → (write nodes t s).1.conn.fids k ≡ s.conn.fids k
  unfolding write
  write-frame t = ground arith

  pub wstat-frame : (t : TWstat) → (wstat nodes fs t s).1.conn.fids k ≡ s.conn.fids k
  unfolding wstat
  wstat-frame t = ground arith

  pub stat-frame : (t : TStat) → (stat_fid nodes fs t s).1.conn.fids k ≡ s.conn.fids k
  unfolding stat_fid
  stat-frame t = ground arith

-- A call on a fid that is not there.
module _ {W N : Type 0} (nodes : Nodes W N) (fs : FileSystem W N) (s : State W N) where
  pub walk-bad_fid :
      (t : TWalk)
      → s.conn.fids t.fid ≡ none
      → walk nodes fs t s ≡ (error_reply t.header.tag (bytes "Bad Fid."), s)
  unfolding walk
  walk-bad_fid t e = ground arith

  pub open-bad_fid :
      (t : TOpen)
      → s.conn.fids t.fid ≡ none
      → open_fid nodes fs t s ≡ (error_reply t.header.tag (bytes "Bad Fid."), s)
  unfolding open_fid
  open-bad_fid t e = ground arith

  pub create-bad_fid :
      (t : TCreate)
      → s.conn.fids t.fid ≡ none
      → create nodes fs t s ≡ (error_reply t.header.tag (bytes "Bad Fid."), s)
  unfolding create
  create-bad_fid t e = ground arith

  pub read-bad_fid :
      (t : TRead)
      → s.conn.fids t.fid ≡ none
      → read nodes t s ≡ (error_reply t.header.tag (bytes "Bad Fid."), s)
  unfolding read
  read-bad_fid t e = ground arith

  pub write-bad_fid :
      (t : TWrite)
      → s.conn.fids t.fid ≡ none
      → write nodes t s ≡ (error_reply t.header.tag (bytes "Bad Fid."), s)
  unfolding write
  write-bad_fid t e = ground arith

  pub stat-bad_fid :
      (t : TStat)
      → s.conn.fids t.fid ≡ none
      → stat_fid nodes fs t s ≡ (error_reply t.header.tag (bytes "Bad Fid."), s)
  unfolding stat_fid
  stat-bad_fid t e = ground arith

  pub wstat-bad_fid :
      (t : TWstat)
      → s.conn.fids t.fid ≡ none
      → wstat nodes fs t s ≡ (error_reply t.header.tag (bytes "Bad Fid."), s)
  unfolding wstat
  wstat-bad_fid t e = ground arith

  absent :
      (k j : ℕ) → s.conn.fids k ≡ none → (if j == k then none else s.conn.fids j) ≡ s.conn.fids j
  absent k j e = ground (arith, e)

  delete-absent : (k : ℕ) → s.conn.fids k ≡ none → delete s.conn k ≡ s.conn
  unfolding delete
  delete-absent k e = ap (λ fids. record s.conn { fids = fids }) (λ i j. absent k j e i)

  removed-absent :
      (t : TRemove)
      → s.conn.fids t.fid ≡ none
      → remove nodes fs t s
        ≡ (error_reply t.header.tag (bytes "Bad Fid."), record s { conn = delete s.conn t.fid })
  unfolding remove
  removed-absent t e = ground arith

  pub remove-bad_fid :
      (t : TRemove)
      → s.conn.fids t.fid ≡ none
      → remove nodes fs t s ≡ (error_reply t.header.tag (bytes "Bad Fid."), s)
  remove-bad_fid t e =
      removed-absent t e
      ∙ ap (λ c. (error_reply t.header.tag (bytes "Bad Fid."), record s { conn = c }))
          (delete-absent t.fid e)
