-- ===== src/Serve.antt =====
-- server.go: the Srv interface and the dispatch of one call.
pub mod Tagged
pub mod Loop
pub mod Async
use go9p.Base.{ℕ, Option, none, some, Bool, if◌then◌else◌}
use go9p.Proto.Header.Types.{rflush_type}
use go9p.Proto.Messages.Version.{TrVersion}
use go9p.Proto.Messages.Auth.{TAuth}
use go9p.Proto.Messages.Attach.{TAttach}
use go9p.Proto.Messages.Walk.{TWalk}
use go9p.Proto.Messages.Open.{TOpen}
use go9p.Proto.Messages.Create.{TCreate}
use go9p.Proto.Messages.Read.{TRead}
use go9p.Proto.Messages.Write.{TWrite}
use go9p.Proto.Messages.Clunk.{TClunk}
use go9p.Proto.Messages.Remove.{TRemove}
use go9p.Proto.Messages.StatCall.{TStat}
use go9p.Proto.Messages.Wstat.{TWstat}
use go9p.Proto.Call.{
  FCall, get_tag, trversion, tauth, tattach, tflush, twalk, topen, tcreate, tread, twrite, tclunk,
  tremove, tstat, twstat, rflush,
}

-- What a handler returns: a message, a Go error, which ends the connection, or a panic.
pub data Reply : Type 0 where
  reply : FCall → Reply
  fail : Reply
  crash : Reply

-- Srv together with Conn: S is the state of the connection and all behind it.
pub record Srv (S : Type 0) : Type 0 where
  pub version : TrVersion → S → Reply × S
  pub auth : TAuth → S → Reply × S
  pub attach : TAttach → S → Reply × S
  pub walk : TWalk → S → Reply × S
  pub open_fid : TOpen → S → Reply × S
  pub create : TCreate → S → Reply × S
  pub read : TRead → S → Reply × S
  pub write : TWrite → S → Reply × S
  pub clunk : TClunk → S → Reply × S
  pub remove : TRemove → S → Reply × S
  pub stat_fid : TStat → S → Reply × S
  pub wstat : TWstat → S → Reply × S
  pub tag_context : ℕ → S → ℕ × S
  pub drop_context : ℕ → S → S
  -- `ctx.Err() != nil`
  pub is_cancelled : ℕ → S → Bool

-- The answer to a call: `nil, nil` is no answer at all.
pub data Answer : Type 0 where
  answer : FCall → Answer
  no_answer : Answer
  failed : Answer
  crashed : Answer

module _ {S : Type 0} (srv : Srv S) where
  -- `switch call.(type)`; `none` is the default case, an error with the context kept.
  unfoldable pub dispatch : FCall → S → Option (Reply × S)
  dispatch (trversion t) s = some (srv.version t s)
  dispatch (tauth t) s = some (srv.auth t s)
  dispatch (tattach t) s = some (srv.attach t s)
  dispatch (tflush t) s =
      some
        (reply (rflush (record { header = record { type = rflush_type; tag = t.header.tag } })), s)
  dispatch (twalk t) s = some (srv.walk t s)
  dispatch (topen t) s = some (srv.open_fid t s)
  dispatch (tcreate t) s = some (srv.create t s)
  dispatch (tread t) s = some (srv.read t s)
  dispatch (twrite t) s = some (srv.write t s)
  dispatch (tclunk t) s = some (srv.clunk t s)
  dispatch (tremove t) s = some (srv.remove t s)
  dispatch (tstat t) s = some (srv.stat_fid t s)
  dispatch (twstat t) s = some (srv.wstat t s)
  dispatch _ s = none

  -- A panic takes the server down before the context is looked at.
  unfoldable pub finish : ℕ → ℕ → Reply × S → Answer × S
  finish tag ctx (crash, s) = (crashed, s)
  finish tag ctx (reply f, s) =
      if srv.is_cancelled ctx s then (no_answer, s) else (answer f, srv.drop_context tag s)
  finish tag ctx (fail, s) =
      if srv.is_cancelled ctx s then (no_answer, s) else (failed, srv.drop_context tag s)

  unfoldable pub handled : ℕ → ℕ → S → Option (Reply × S) → Answer × S
  unfolding finish
  handled tag ctx s none = (failed, s)
  handled tag ctx s (some r) = finish tag ctx r

  unfoldable pub handle_call : FCall → S → Answer × S
  unfolding handled dispatch
  handle_call call s =
      let (ctx, s') = srv.tag_context (get_tag call) s in
      handled (get_tag call) ctx s' (dispatch call s')
