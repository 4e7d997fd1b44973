-- ===== src/Proto/Call/Parse/Framing.antt =====
-- Every message that fits is read back from the bytes of its body.
use go9p.Base.{ℕ, List, ◌≡◌, sym, inl, inr}
use mathlib.Core.Path.{subst}
use go9p.Proto.Marshal.Parser.{Parses, Parses-map}
use go9p.Proto.Header.{Header}
use go9p.Proto.Marshal.{IsU16}
use go9p.Proto.Messages.Version.{Parses-trversion}
use go9p.Proto.Messages.Auth.{Parses-tauth, Parses-rauth}
use go9p.Proto.Messages.Attach.{Parses-tattach, Parses-rattach}
use go9p.Proto.Messages.Error.{Parses-rerror}
use go9p.Proto.Messages.Flush.{Parses-tflush, Parses-rflush}
use go9p.Proto.Messages.Walk.{Parses-twalk, Parses-rwalk}
use go9p.Proto.Messages.Open.{Parses-topen, Parses-ropen}
use go9p.Proto.Messages.Create.{Parses-tcreate, Parses-rcreate}
use go9p.Proto.Messages.Read.{Parses-tread, Parses-rread}
use go9p.Proto.Messages.Write.{Parses-twrite, Parses-rwrite}
use go9p.Proto.Messages.Clunk.{Parses-tclunk, Parses-rclunk}
use go9p.Proto.Messages.Remove.{Parses-tremove, Parses-rremove}
use go9p.Proto.Messages.StatCall.{Parses-tstat, Parses-rstat}
use go9p.Proto.Messages.Wstat.{Parses-twstat, Parses-rwstat}
use go9p.Proto.Call.{
  FCall, header_of, trversion, tauth, rauth, tattach, rattach, rerror, tflush, rflush, twalk, rwalk,
  topen, ropen, tcreate, rcreate, tread, rread, twrite, rwrite, tclunk, rclunk, tremove, rremove,
  tstat, rstat, twstat, rwstat,
}
use go9p.Proto.Call.Layout.{IsFCall, body_of}
use go9p.Proto.Call.Parse.{parse_message}

at_type :
    {n type : ℕ} (h : Header) {bs : List ℕ} {f : FCall}
    → type ≡ n
    → Parses (parse_message n h) bs f
    → Parses (parse_message type h) bs f
at_type h {bs = bs} {f = f} e p = subst (λ k. Parses (parse_message k h) bs f) (sym e) p

-- The parser that the type byte selects reads the message back from its body.
pub Parses-message :
    (f : FCall) → IsFCall f → Parses (parse_message (header_of f).type (header_of f)) (body_of f) f
unfolding parse_message header_of
Parses-message (trversion t) (inl e, _, v) =
    at_type t.header e (Parses-map trversion (Parses-trversion t v))
Parses-message (trversion t) (inr e, _, v) =
    at_type t.header e (Parses-map trversion (Parses-trversion t v))
Parses-message (tauth t) ((e, _), v) = at_type t.header e (Parses-map tauth (Parses-tauth t v))
Parses-message (rauth t) ((e, _), v) = at_type t.header e (Parses-map rauth (Parses-rauth t v))
Parses-message (tattach t) ((e, _), v) =
    at_type t.header e (Parses-map tattach (Parses-tattach t v))
Parses-message (rattach t) ((e, _), v) =
    at_type t.header e (Parses-map rattach (Parses-rattach t v))
Parses-message (rerror t) ((e, _), v) = at_type t.header e (Parses-map rerror (Parses-rerror t v))
Parses-message (tflush t) ((e, _), v) = at_type t.header e (Parses-map tflush (Parses-tflush t v))
Parses-message (rflush t) (e, _) = at_type t.header e (Parses-map rflush (Parses-rflush t))
Parses-message (twalk t) ((e, _), v) = at_type t.header e (Parses-map twalk (Parses-twalk t v))
Parses-message (rwalk t) ((e, _), v) = at_type t.header e (Parses-map rwalk (Parses-rwalk t v))
Parses-message (topen t) ((e, _), v) = at_type t.header e (Parses-map topen (Parses-topen t v))
Parses-message (ropen t) ((e, _), v) = at_type t.header e (Parses-map ropen (Parses-ropen t v))
Parses-message (tcreate t) ((e, _), v) =
    at_type t.header e (Parses-map tcreate (Parses-tcreate t v))
Parses-message (rcreate t) ((e, _), v) =
    at_type t.header e (Parses-map rcreate (Parses-rcreate t v))
Parses-message (tread t) ((e, _), v) = at_type t.header e (Parses-map tread (Parses-tread t v))
Parses-message (rread t) ((e, _), v) = at_type t.header e (Parses-map rread (Parses-rread t v))
Parses-message (twrite t) ((e, _), v) = at_type t.header e (Parses-map twrite (Parses-twrite t v))
Parses-message (rwrite t) ((e, _), v) = at_type t.header e (Parses-map rwrite (Parses-rwrite t v))
Parses-message (tclunk t) ((e, _), v) = at_type t.header e (Parses-map tclunk (Parses-tclunk t v))
Parses-message (rclunk t) (e, _) = at_type t.header e (Parses-map rclunk (Parses-rclunk t))
Parses-message (tremove t) ((e, _), v) =
    at_type t.header e (Parses-map tremove (Parses-tremove t v))
Parses-message (rremove t) (e, _) = at_type t.header e (Parses-map rremove (Parses-rremove t))
Parses-message (tstat t) ((e, _), v) = at_type t.header e (Parses-map tstat (Parses-tstat t v))
Parses-message (rstat t) ((e, _), v) = at_type t.header e (Parses-map rstat (Parses-rstat t v))
Parses-message (twstat t) ((e, _), v) = at_type t.header e (Parses-map twstat (Parses-twstat t v))
Parses-message (rwstat t) (e, _) = at_type t.header e (Parses-map rwstat (Parses-rwstat t))

pub IsFCall-tag : (f : FCall) → IsFCall f → IsU16 (header_of f).tag
unfolding header_of
IsFCall-tag (trversion t) (_, h, _) = h
IsFCall-tag (tauth t) ((_, h), _) = h
IsFCall-tag (rauth t) ((_, h), _) = h
IsFCall-tag (tattach t) ((_, h), _) = h
IsFCall-tag (rattach t) ((_, h), _) = h
IsFCall-tag (rerror t) ((_, h), _) = h
IsFCall-tag (tflush t) ((_, h), _) = h
IsFCall-tag (rflush t) (_, h) = h
IsFCall-tag (twalk t) ((_, h), _) = h
IsFCall-tag (rwalk t) ((_, h), _) = h
IsFCall-tag (topen t) ((_, h), _) = h
IsFCall-tag (ropen t) ((_, h), _) = h
IsFCall-tag (tcreate t) ((_, h), _) = h
IsFCall-tag (rcreate t) ((_, h), _) = h
IsFCall-tag (tread t) ((_, h), _) = h
IsFCall-tag (rread t) ((_, h), _) = h
IsFCall-tag (twrite t) ((_, h), _) = h
IsFCall-tag (rwrite t) ((_, h), _) = h
IsFCall-tag (tclunk t) ((_, h), _) = h
IsFCall-tag (rclunk t) (_, h) = h
IsFCall-tag (tremove t) ((_, h), _) = h
IsFCall-tag (rremove t) (_, h) = h
IsFCall-tag (tstat t) ((_, h), _) = h
IsFCall-tag (rstat t) ((_, h), _) = h
IsFCall-tag (twstat t) ((_, h), _) = h
IsFCall-tag (rwstat t) (_, h) = h
