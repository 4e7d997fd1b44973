-- ===== src/Proto/Call.antt =====
-- proto/fcall.go: the FCall interface as one type, with Compose and GetTag for every message.
pub mod Layout
pub mod Parse
use go9p.Base.{ℕ, List, Option}
use go9p.Proto.Header.{Header}
use go9p.Proto.Messages.Version.{TrVersion, compose_trversion}
use go9p.Proto.Messages.Auth.{TAuth, compose_tauth, RAuth, compose_rauth}
use go9p.Proto.Messages.Attach.{TAttach, compose_tattach, RAttach, compose_rattach}
use go9p.Proto.Messages.Error.{RError, compose_rerror}
use go9p.Proto.Messages.Flush.{TFlush, compose_tflush, RFlush, compose_rflush}
use go9p.Proto.Messages.Walk.{TWalk, compose_twalk, RWalk, compose_rwalk}
use go9p.Proto.Messages.Open.{TOpen, compose_topen, ROpen, compose_ropen}
use go9p.Proto.Messages.Create.{TCreate, compose_tcreate, RCreate, compose_rcreate}
use go9p.Proto.Messages.Read.{TRead, compose_tread, RRead, compose_rread}
use go9p.Proto.Messages.Write.{TWrite, compose_twrite, RWrite, compose_rwrite}
use go9p.Proto.Messages.Clunk.{TClunk, compose_tclunk, RClunk, compose_rclunk}
use go9p.Proto.Messages.Remove.{TRemove, compose_tremove, RRemove, compose_rremove}
use go9p.Proto.Messages.StatCall.{TStat, compose_tstat, RStat, compose_rstat}
use go9p.Proto.Messages.Wstat.{TWstat, compose_twstat, RWstat, compose_rwstat}

pub data FCall : Type 0 where
  trversion : TrVersion → FCall
  tauth : TAuth → FCall
  rauth : RAuth → FCall
  tattach : TAttach → FCall
  rattach : RAttach → FCall
  rerror : RError → FCall
  tflush : TFlush → FCall
  rflush : RFlush → FCall
  twalk : TWalk → FCall
  rwalk : RWalk → FCall
  topen : TOpen → FCall
  ropen : ROpen → FCall
  tcreate : TCreate → FCall
  rcreate : RCreate → FCall
  tread : TRead → FCall
  rread : RRead → FCall
  twrite : TWrite → FCall
  rwrite : RWrite → FCall
  tclunk : TClunk → FCall
  rclunk : RClunk → FCall
  tremove : TRemove → FCall
  rremove : RRemove → FCall
  tstat : TStat → FCall
  rstat : RStat → FCall
  twstat : TWstat → FCall
  rwstat : RWstat → FCall

unfoldable pub header_of : FCall → Header
header_of (trversion t) = t.header
header_of (tauth t) = t.header
header_of (rauth t) = t.header
header_of (tattach t) = t.header
header_of (rattach t) = t.header
header_of (rerror t) = t.header
header_of (tflush t) = t.header
header_of (rflush t) = t.header
header_of (twalk t) = t.header
header_of (rwalk t) = t.header
header_of (topen t) = t.header
header_of (ropen t) = t.header
header_of (tcreate t) = t.header
header_of (rcreate t) = t.header
header_of (tread t) = t.header
header_of (rread t) = t.header
header_of (twrite t) = t.header
header_of (rwrite t) = t.header
header_of (tclunk t) = t.header
header_of (rclunk t) = t.header
header_of (tremove t) = t.header
header_of (rremove t) = t.header
header_of (tstat t) = t.header
header_of (rstat t) = t.header
header_of (twstat t) = t.header
header_of (rwstat t) = t.header

unfoldable pub get_tag : FCall → ℕ
unfolding header_of
get_tag f = (header_of f).tag

unfoldable pub compose : FCall → Option (List ℕ)
compose (trversion t) = compose_trversion t
compose (tauth t) = compose_tauth t
compose (rauth t) = compose_rauth t
compose (tattach t) = compose_tattach t
compose (rattach t) = compose_rattach t
compose (rerror t) = compose_rerror t
compose (tflush t) = compose_tflush t
compose (rflush t) = compose_rflush t
compose (twalk t) = compose_twalk t
compose (rwalk t) = compose_rwalk t
compose (topen t) = compose_topen t
compose (ropen t) = compose_ropen t
compose (tcreate t) = compose_tcreate t
compose (rcreate t) = compose_rcreate t
compose (tread t) = compose_tread t
compose (rread t) = compose_rread t
compose (twrite t) = compose_twrite t
compose (rwrite t) = compose_rwrite t
compose (tclunk t) = compose_tclunk t
compose (rclunk t) = compose_rclunk t
compose (tremove t) = compose_tremove t
compose (rremove t) = compose_rremove t
compose (tstat t) = compose_tstat t
compose (rstat t) = compose_rstat t
compose (twstat t) = compose_twstat t
compose (rwstat t) = compose_rwstat t
