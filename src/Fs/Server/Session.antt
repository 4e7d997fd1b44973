-- ===== src/Fs/Server/Session.antt =====
-- Version, Auth, Attach and Clunk of fs/server.go.
pub mod Msize
pub mod Trust
use go9p.Base.{[], ℕ, Option, none, some, ◌==◌, ◌&&◌, ltb, if◌then◌else◌, bytes, same_text}
use go9p.Proto.Header.Types.{
  tversion_type, rversion_type, rauth_type, rattach_type, rclunk_type, max_msg_len,
}
use go9p.Proto.Messages.Version.{TrVersion}
use go9p.Proto.Messages.Auth.{TAuth}
use go9p.Proto.Messages.Attach.{TAttach}
use go9p.Proto.Messages.Clunk.{TClunk}
use go9p.Proto.Call.{trversion, rauth, rattach, rclunk}
use go9p.Fs.Permissions.{ordwr, omode_none}
use go9p.Fs.Result.{Text, Result, ok, err, panic}
use go9p.Fs.Nodes.{Nodes, FileSystem, Kind, mod_dir, plain_dir, file, other}
use go9p.Fs.Server.Conn.{
  Extra, nothing, listing, auth_error, auth_name, FidInfo, new_fid_info, store, delete, to_conn_fid,
  Reply, reply, fail, crash, error_reply, State, Step,
}

module _ {W N : Type 0} (nodes : Nodes W N) (fs : FileSystem W N) where
  version_reply : ℕ → TrVersion → State W N → Step W N
  version_reply msize t s = (
    reply
        (trversion (record t { header = record t.header { type = rversion_type }; msize = msize })),
    record s { conn = record s.conn { msize = msize } },
  )

  -- The server clamps the msize that the client offers, and answers with it.
  unfoldable pub version : TrVersion → State W N → Step W N
  unfolding version_reply
  version t s =
      if (t.header.type == tversion_type) && same_text t.version (bytes "9P2000")
      then version_reply (if ltb max_msg_len t.msize then max_msg_len else t.msize) t s
      else (fail, s)

  auth_opened : TAuth → N → Result (Unit {0}) → State W N → Step W N
  auth_opened t n (err e) s = (error_reply t.header.tag e, s)
  auth_opened t n panic s = (crash, s)
  auth_opened t n (ok _) s = (
    reply (
        rauth (record {
          header = record { type = rauth_type; tag = t.header.tag };
          aqid = (nodes.stat s.world n).qid;
        })),
    record s {
      conn =
          store s.conn t.afid
            (record { n = n; open_mode = ordwr; open_offset = 0; uname = []; extra = nothing });
    },
  )

  -- The goroutine that runs authFunc is a later step, `authenticated`.
  unfoldable pub auth : TAuth → State W N → Step W N
  unfolding auth_opened
  auth t s =
      if fs.has_auth
      then (let (n, w) = fs.auth_file s.world in
          let (r, w') = nodes.open_file w n (to_conn_fid s.conn t.afid) ordwr in
          auth_opened t n r (record s { world = w' }))
      else (error_reply t.header.tag (bytes "Authentication Not Supported."), s)

  with_extra : ℕ → Extra N → Option (FidInfo N) → State W N → State W N
  with_extra afid e none s = s
  with_extra afid e (some info) s = record s {
    conn = store s.conn afid (record info { extra = e });
  }

  auth_extra : Result Text → Extra N
  auth_extra (ok uname) = auth_name uname
  auth_extra (err e) = auth_error e
  auth_extra panic = nothing

  -- The goroutine of Auth is done: it leaves the name, or the error, in the info of the afid. It is
  -- taken that the client has not given that fid to another file meanwhile.
  unfoldable pub authenticated : ℕ → Result Text → State W N → State W N
  unfolding with_extra auth_extra
  authenticated afid r s = with_extra afid (auth_extra r) (s.conn.fids afid) s

  attach_as : TAttach → Text → State W N → Step W N
  attach_as t uname s = (
    reply (
        rattach (record {
          header = record { type = rattach_type; tag = t.header.tag };
          qid = (nodes.stat s.world fs.root).qid;
        })),
    record s { conn = store s.conn t.fid (new_fid_info uname fs.root) },
  )

  attach_extra : TAttach → Extra N → State W N → Step W N
  unfolding attach_as
  attach_extra t (auth_error e) s = (error_reply t.header.tag e, s)
  attach_extra t (auth_name name) s = attach_as t name s
  attach_extra t nothing s = (error_reply t.header.tag (bytes "Not Authenticated."), s)
  attach_extra t (listing _) s = (error_reply t.header.tag (bytes "Not Authenticated."), s)

  attach_info : TAttach → Option (FidInfo N) → State W N → Step W N
  unfolding attach_extra
  attach_info t none s = (error_reply t.header.tag (bytes "Not Authenticated."), s)
  attach_info t (some info) s = attach_extra t info.extra s

  -- Without authentication the client is taken at its word; with it, the name that authFunc
  -- returned is used.
  unfoldable pub attach : TAttach → State W N → Step W N
  unfolding attach_as attach_info
  attach t s = if fs.has_auth then attach_info t (s.conn.fids t.afid) s else attach_as t t.uname s

  clunk_reply : TClunk → Reply
  clunk_reply t =
      reply (rclunk (record { header = record { type = rclunk_type; tag = t.header.tag } }))

  closed : TClunk → Result (Unit {0}) → Reply
  unfolding clunk_reply
  closed t (ok _) = clunk_reply t
  closed t (err e) = error_reply t.header.tag e
  closed t panic = crash

  clunk_node : TClunk → N → Kind → State W N → Step W N
  unfolding closed
  clunk_node t n file s =
      let (r, w) = nodes.close_file s.world n (to_conn_fid s.conn t.fid) in
      (closed t r, record s { world = w })
  clunk_node t n other s = (clunk_reply t, s)
  clunk_node t n mod_dir s = (clunk_reply t, s)
  clunk_node t n plain_dir s = (clunk_reply t, s)

  clunk_info : TClunk → Option (FidInfo N) → State W N → Step W N
  unfolding clunk_node
  clunk_info t none s = (clunk_reply t, s)
  clunk_info t (some info) s =
      if info.open_mode == omode_none
      then (clunk_reply t, s)
      else clunk_node t info.n (nodes.kind info.n) s

  -- The fid is deleted first, whatever follows.
  unfoldable pub clunk : TClunk → State W N → Step W N
  unfolding clunk_info
  clunk t s = clunk_info t (s.conn.fids t.fid) (record s { conn = delete s.conn t.fid })
