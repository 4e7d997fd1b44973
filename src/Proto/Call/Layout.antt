-- ===== src/Proto/Call/Layout.antt =====
-- The layout of every message, as 9P2000 draws it: when the fields of a message fit the wire, the
-- bytes of its body, and that Compose writes exactly the frame around them.
use go9p.Base.{ℕ, List, some, ◌≡◌, ◌⊎◌}
use go9p.Proto.Marshal.{IsU16}
use go9p.Proto.Header.{Header, frame}
use go9p.Proto.Header.Types.{
  tversion_type, rversion_type, tauth_type, rauth_type, tattach_type, rattach_type, rerror_type,
  tflush_type, rflush_type, twalk_type, rwalk_type, topen_type, ropen_type, tcreate_type,
  rcreate_type, tread_type, rread_type, twrite_type, rwrite_type, tclunk_type, rclunk_type,
  tremove_type, rremove_type, tstat_type, rstat_type, twstat_type, rwstat_type,
}
use go9p.Proto.Messages.Version.{trversion_body, compose_trversion_lem, IsTrVersion}
use go9p.Proto.Messages.Auth.{
  tauth_body, compose_tauth_lem, IsTAuth, rauth_body, compose_rauth_lem, IsRAuth,
}
use go9p.Proto.Messages.Attach.{
  tattach_body, compose_tattach_lem, IsTAttach, rattach_body, compose_rattach_lem, IsRAttach,
}
use go9p.Proto.Messages.Error.{rerror_body, compose_rerror_lem, IsRError}
use go9p.Proto.Messages.Flush.{
  tflush_body, compose_tflush_lem, IsTFlush, rflush_body, compose_rflush_lem,
}
use go9p.Proto.Messages.Walk.{
  twalk_body, compose_twalk_lem, IsTWalk, rwalk_body, compose_rwalk_lem, IsRWalk,
}
use go9p.Proto.Messages.Open.{
  topen_body, compose_topen_lem, IsTOpen, ropen_body, compose_ropen_lem, IsROpen,
}
use go9p.Proto.Messages.Create.{
  tcreate_body, compose_tcreate_lem, IsTCreate, rcreate_body, compose_rcreate_lem, IsRCreate,
}
use go9p.Proto.Messages.Read.{
  tread_body, compose_tread_lem, IsTRead, rread_body, compose_rread_lem, IsRRead,
}
use go9p.Proto.Messages.Write.{
  twrite_body, compose_twrite_lem, IsTWrite, rwrite_body, compose_rwrite_lem, IsRWrite,
}
use go9p.Proto.Messages.Clunk.{
  tclunk_body, compose_tclunk_lem, IsTClunk, rclunk_body, compose_rclunk_lem,
}
use go9p.Proto.Messages.Remove.{
  tremove_body, compose_tremove_lem, IsTRemove, rremove_body, compose_rremove_lem,
}
use go9p.Proto.Messages.StatCall.{
  tstat_body, compose_tstat_lem, IsTStat, rstat_body, compose_rstat_lem, IsRStat,
}
use go9p.Proto.Messages.Wstat.{
  twstat_body, compose_twstat_lem, IsTWstat, rwstat_body, compose_rwstat_lem,
}
use go9p.Proto.Call.{
  FCall, header_of, compose, trversion, tauth, rauth, tattach, rattach, rerror, tflush, rflush,
  twalk, rwalk, topen, ropen, tcreate, rcreate, tread, rread, twrite, rwrite, tclunk, rclunk,
  tremove, rremove, tstat, rstat, twstat, rwstat,
}

abbrev pub IsTagged : ℕ → Header → Type 0
IsTagged n h = (h.type ≡ n) × IsU16 h.tag

-- The header names the type of the message, and every field fits its bytes.
abbrev pub IsFCall : FCall → Type 0
IsFCall (trversion t) =
    ((t.header.type ≡ tversion_type) ⊎ (t.header.type ≡ rversion_type))
    × IsU16 t.header.tag
    × IsTrVersion t
IsFCall (tauth t) = IsTagged tauth_type t.header × IsTAuth t
IsFCall (rauth t) = IsTagged rauth_type t.header × IsRAuth t
IsFCall (tattach t) = IsTagged tattach_type t.header × IsTAttach t
IsFCall (rattach t) = IsTagged rattach_type t.header × IsRAttach t
IsFCall (rerror t) = IsTagged rerror_type t.header × IsRError t
IsFCall (tflush t) = IsTagged tflush_type t.header × IsTFlush t
IsFCall (rflush t) = IsTagged rflush_type t.header
IsFCall (twalk t) = IsTagged twalk_type t.header × IsTWalk t
IsFCall (rwalk t) = IsTagged rwalk_type t.header × IsRWalk t
IsFCall (topen t) = IsTagged topen_type t.header × IsTOpen t
IsFCall (ropen t) = IsTagged ropen_type t.header × IsROpen t
IsFCall (tcreate t) = IsTagged tcreate_type t.header × IsTCreate t
IsFCall (rcreate t) = IsTagged rcreate_type t.header × IsRCreate t
IsFCall (tread t) = IsTagged tread_type t.header × IsTRead t
IsFCall (rread t) = IsTagged rread_type t.header × IsRRead t
IsFCall (twrite t) = IsTagged twrite_type t.header × IsTWrite t
IsFCall (rwrite t) = IsTagged rwrite_type t.header × IsRWrite t
IsFCall (tclunk t) = IsTagged tclunk_type t.header × IsTClunk t
IsFCall (rclunk t) = IsTagged rclunk_type t.header
IsFCall (tremove t) = IsTagged tremove_type t.header × IsTRemove t
IsFCall (rremove t) = IsTagged rremove_type t.header
IsFCall (tstat t) = IsTagged tstat_type t.header × IsTStat t
IsFCall (rstat t) = IsTagged rstat_type t.header × IsRStat t
IsFCall (twstat t) = IsTagged twstat_type t.header × IsTWstat t
IsFCall (rwstat t) = IsTagged rwstat_type t.header

abbrev pub body_of : FCall → List ℕ
body_of (trversion t) = trversion_body t
body_of (tauth t) = tauth_body t
body_of (rauth t) = rauth_body t
body_of (tattach t) = tattach_body t
body_of (rattach t) = rattach_body t
body_of (rerror t) = rerror_body t
body_of (tflush t) = tflush_body t
body_of (rflush t) = rflush_body t
body_of (twalk t) = twalk_body t
body_of (rwalk t) = rwalk_body t
body_of (topen t) = topen_body t
body_of (ropen t) = ropen_body t
body_of (tcreate t) = tcreate_body t
body_of (rcreate t) = rcreate_body t
body_of (tread t) = tread_body t
body_of (rread t) = rread_body t
body_of (twrite t) = twrite_body t
body_of (rwrite t) = rwrite_body t
body_of (tclunk t) = tclunk_body t
body_of (rclunk t) = rclunk_body t
body_of (tremove t) = tremove_body t
body_of (rremove t) = rremove_body t
body_of (tstat t) = tstat_body t
body_of (rstat t) = rstat_body t
body_of (twstat t) = twstat_body t
body_of (rwstat t) = rwstat_body t

abbrev pub wire : FCall → List ℕ
wire f = frame (header_of f) (body_of f)

-- Compose never panics on a message that fits, and writes size[4] type tag[2] and the body.
pub compose-wire : (f : FCall) → IsFCall f → compose f ≡ some (wire f)
unfolding compose header_of
compose-wire (trversion t) (_, _, v) = compose_trversion_lem t v
compose-wire (tauth t) (_, v) = compose_tauth_lem t v
compose-wire (rauth t) (_, v) = compose_rauth_lem t v
compose-wire (tattach t) (_, v) = compose_tattach_lem t v
compose-wire (rattach t) (_, v) = compose_rattach_lem t v
compose-wire (rerror t) (_, v) = compose_rerror_lem t v
compose-wire (tflush t) (_, v) = compose_tflush_lem t v
compose-wire (rflush t) v = compose_rflush_lem t
compose-wire (twalk t) (_, v) = compose_twalk_lem t v
compose-wire (rwalk t) (_, v) = compose_rwalk_lem t v
compose-wire (topen t) (_, v) = compose_topen_lem t v
compose-wire (ropen t) (_, v) = compose_ropen_lem t v
compose-wire (tcreate t) (_, v) = compose_tcreate_lem t v
compose-wire (rcreate t) (_, v) = compose_rcreate_lem t v
compose-wire (tread t) (_, v) = compose_tread_lem t v
compose-wire (rread t) (_, v) = compose_rread_lem t v
compose-wire (twrite t) (_, v) = compose_twrite_lem t v
compose-wire (rwrite t) (_, v) = compose_rwrite_lem t v
compose-wire (tclunk t) (_, v) = compose_tclunk_lem t v
compose-wire (rclunk t) v = compose_rclunk_lem t
compose-wire (tremove t) (_, v) = compose_tremove_lem t v
compose-wire (rremove t) v = compose_rremove_lem t
compose-wire (tstat t) (_, v) = compose_tstat_lem t v
compose-wire (rstat t) (_, v) = compose_rstat_lem t v
compose-wire (twstat t) (_, v) = compose_twstat_lem t v
compose-wire (rwstat t) v = compose_rwstat_lem t
