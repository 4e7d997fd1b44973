-- ===== src/Fs/Server/Tagged.antt =====
-- Every reply of fs/server.go carries the tag of its call.
use go9p.Base.{arith}
use go9p.Proto.Messages.Version.{TrVersion}
use go9p.Proto.Messages.Auth.{TAuth}
use go9p.Proto.Messages.Attach.{TAttach}
use go9p.Proto.Messages.Walk.{TWalk}
use go9p.Proto.Messages.Open.{TOpen}
use go9p.Proto.Messages.Create.{TCreate}
use go9p.Proto.Messages.Write.{TWrite}
use go9p.Proto.Messages.Clunk.{TClunk}
use go9p.Proto.Messages.Remove.{TRemove}
use go9p.Proto.Messages.StatCall.{TStat}
use go9p.Proto.Messages.Wstat.{TWstat}
use go9p.Proto.Call.{FCall, get_tag, header_of}
use go9p.Serve.{handle_call}
use go9p.Serve.Tagged.{HasTag, Tagging, AnswersTag, handle_call-AnswersTag}
use go9p.Fs.Nodes.{Nodes, FileSystem}
use go9p.Fs.Server.{server}
use go9p.Fs.Server.Conn.{State, error_reply}
use go9p.Fs.Server.Session.{version, auth, attach, clunk}
use go9p.Fs.Server.Walk.{walk}
use go9p.Fs.Server.Files.{open_fid, create, remove}
use go9p.Fs.Server.Data.{write}
use go9p.Fs.Server.Data.Tag.{read-HasTag}
use go9p.Fs.Server.Attributes.{stat_fid, wstat}

module _ {W N : Type 0} (nodes : Nodes W N) (fs : FileSystem W N) (s : State W N) where
  open-HasTag : (t : TOpen) → HasTag t.header.tag (open_fid nodes fs t s).0
  unfolding open_fid error_reply get_tag header_of
  open-HasTag t = ground arith

  walk-HasTag : (t : TWalk) → HasTag t.header.tag (walk nodes fs t s).0
  unfolding walk error_reply get_tag header_of
  walk-HasTag t = ground arith

  version-HasTag : (t : TrVersion) → HasTag t.header.tag (version nodes fs t s).0
  unfolding version error_reply get_tag header_of
  version-HasTag t = ground arith

  auth-HasTag : (t : TAuth) → HasTag t.header.tag (auth nodes fs t s).0
  unfolding auth error_reply get_tag header_of
  auth-HasTag t = ground arith

  attach-HasTag : (t : TAttach) → HasTag t.header.tag (attach nodes fs t s).0
  unfolding attach error_reply get_tag header_of
  attach-HasTag t = ground arith

  clunk-HasTag : (t : TClunk) → HasTag t.header.tag (clunk nodes fs t s).0
  unfolding clunk error_reply get_tag header_of
  clunk-HasTag t = ground arith

  create-HasTag : (t : TCreate) → HasTag t.header.tag (create nodes fs t s).0
  unfolding create error_reply get_tag header_of
  create-HasTag t = ground arith

  remove-HasTag : (t : TRemove) → HasTag t.header.tag (remove nodes fs t s).0
  unfolding remove error_reply get_tag header_of
  remove-HasTag t = ground arith

  write-HasTag : (t : TWrite) → HasTag t.header.tag (write nodes t s).0
  unfolding write error_reply get_tag header_of
  write-HasTag t = ground arith

  stat-HasTag : (t : TStat) → HasTag t.header.tag (stat_fid nodes fs t s).0
  unfolding stat_fid error_reply get_tag header_of
  stat-HasTag t = ground arith

  wstat-HasTag : (t : TWstat) → HasTag t.header.tag (wstat nodes fs t s).0
  unfolding wstat error_reply get_tag header_of
  wstat-HasTag t = ground arith

module _ {W N : Type 0} (nodes : Nodes W N) (fs : FileSystem W N) where
  pub server-Tagging : Tagging (server nodes fs)
  server-Tagging = record {
    version = λ t s. version-HasTag nodes fs s t;
    auth = λ t s. auth-HasTag nodes fs s t;
    attach = λ t s. attach-HasTag nodes fs s t;
    walk = λ t s. walk-HasTag nodes fs s t;
    open_fid = λ t s. open-HasTag nodes fs s t;
    create = λ t s. create-HasTag nodes fs s t;
    read = λ t s. read-HasTag nodes t s;
    write = λ t s. write-HasTag nodes fs s t;
    clunk = λ t s. clunk-HasTag nodes fs s t;
    remove = λ t s. remove-HasTag nodes fs s t;
    stat_fid = λ t s. stat-HasTag nodes fs s t;
    wstat = λ t s. wstat-HasTag nodes fs s t;
  }

  -- Whatever the call and the state of the connection, if handling it on the server of fs/ gives an
  -- answer, the answer carries the tag of the call.
  pub handle_call-tag :
      (f : FCall) (s : State W N) → AnswersTag (get_tag f) (handle_call (server nodes fs) f s).0
  handle_call-tag f s = handle_call-AnswersTag (server nodes fs) f s server-Tagging
