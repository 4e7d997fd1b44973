-- ===== src/Proto/Call/Parse.antt =====
-- ParseCall of proto/fcall.go.
pub mod Framing
pub mod RoundTrip
use go9p.Base.{ℕ, ◌+◌, ◌-◌, ◌%◌, ◌^◌, List, ltb, ◌==◌, if◌then◌else◌, Option, none, some, ◌≡◌, refl}
use go9p.Proto.Marshal.{from_little_e32}
use go9p.Proto.Marshal.Parser.{
  Outcome, ok, err, panic, too_long, not_implemented, read_error, Parser, pure, ◌>>=◌,
}
use go9p.Proto.Header.{Header, parse_header}
use go9p.Proto.Header.Types.{
  max_msg_len, tversion_type, rversion_type, tauth_type, rauth_type, tattach_type, rattach_type,
  rerror_type, tflush_type, rflush_type, twalk_type, rwalk_type, topen_type, ropen_type,
  tcreate_type, rcreate_type, tread_type, rread_type, twrite_type, rwrite_type, tclunk_type,
  rclunk_type, tremove_type, rremove_type, tstat_type, rstat_type, twstat_type, rwstat_type,
}
use go9p.Proto.Messages.Version.{TrVersion, parse_trversion}
use go9p.Proto.Messages.Auth.{TAuth, parse_tauth, RAuth, parse_rauth}
use go9p.Proto.Messages.Attach.{TAttach, parse_tattach, RAttach, parse_rattach}
use go9p.Proto.Messages.Error.{RError, parse_rerror}
use go9p.Proto.Messages.Flush.{TFlush, parse_tflush, RFlush, parse_rflush}
use go9p.Proto.Messages.Walk.{TWalk, parse_twalk, RWalk, parse_rwalk}
use go9p.Proto.Messages.Open.{TOpen, parse_topen, ROpen, parse_ropen}
use go9p.Proto.Messages.Create.{TCreate, parse_tcreate, RCreate, parse_rcreate}
use go9p.Proto.Messages.Read.{TRead, parse_tread, RRead, parse_rread}
use go9p.Proto.Messages.Write.{TWrite, parse_twrite, RWrite, parse_rwrite}
use go9p.Proto.Messages.Clunk.{TClunk, parse_tclunk, RClunk, parse_rclunk}
use go9p.Proto.Messages.Remove.{TRemove, parse_tremove, RRemove, parse_rremove}
use go9p.Proto.Messages.StatCall.{TStat, parse_tstat, RStat, parse_rstat}
use go9p.Proto.Messages.Wstat.{TWstat, parse_twstat, RWstat, parse_rwstat}
use go9p.Proto.Call.{
  FCall, trversion, tauth, rauth, tattach, rattach, rerror, tflush, rflush, twalk, rwalk, topen,
  ropen, tcreate, rcreate, tread, rread, twrite, rwrite, tclunk, rclunk, tremove, rremove, tstat,
  rstat, twstat, rwstat,
}
use go9p.Proto.Reader.{Reader, read_bytes}

abbrev parse_as : {M : Type 0} → (M → FCall) → Parser M → Parser FCall
parse_as c p = p >>= λ t. pure (c t)

-- `switch h.Type`, and the parser of the message that it makes.
unfoldable pub parse_message : ℕ → Header → Parser FCall
parse_message type h =
    if type == tversion_type
    then parse_as trversion (parse_trversion h)
    else if type == rversion_type
    then parse_as trversion (parse_trversion h)
    else if type == tauth_type
    then parse_as tauth (parse_tauth h)
    else if type == rauth_type
    then parse_as rauth (parse_rauth h)
    else if type == tattach_type
    then parse_as tattach (parse_tattach h)
    else if type == rattach_type
    then parse_as rattach (parse_rattach h)
    else if type == rerror_type
    then parse_as rerror (parse_rerror h)
    else if type == tflush_type
    then parse_as tflush (parse_tflush h)
    else if type == rflush_type
    then parse_as rflush (parse_rflush h)
    else if type == twalk_type
    then parse_as twalk (parse_twalk h)
    else if type == rwalk_type
    then parse_as rwalk (parse_rwalk h)
    else if type == topen_type
    then parse_as topen (parse_topen h)
    else if type == ropen_type
    then parse_as ropen (parse_ropen h)
    else if type == tcreate_type
    then parse_as tcreate (parse_tcreate h)
    else if type == rcreate_type
    then parse_as rcreate (parse_rcreate h)
    else if type == tread_type
    then parse_as tread (parse_tread h)
    else if type == rread_type
    then parse_as rread (parse_rread h)
    else if type == twrite_type
    then parse_as twrite (parse_twrite h)
    else if type == rwrite_type
    then parse_as rwrite (parse_rwrite h)
    else if type == tclunk_type
    then parse_as tclunk (parse_tclunk h)
    else if type == rclunk_type
    then parse_as rclunk (parse_rclunk h)
    else if type == tremove_type
    then parse_as tremove (parse_tremove h)
    else if type == rremove_type
    then parse_as rremove (parse_rremove h)
    else if type == tstat_type
    then parse_as tstat (parse_tstat h)
    else if type == rstat_type
    then parse_as rstat (parse_rstat h)
    else if type == twstat_type
    then parse_as twstat (parse_twstat h)
    else if type == rwstat_type
    then parse_as rwstat (parse_rwstat h)
    else λ buff. err (not_implemented type)

-- `_, err = fc.parse(buff)`: what the parser leaves of the buffer is dropped.
parsed : Outcome (FCall × List ℕ) → Outcome FCall
parsed (ok (fc, _)) = ok fc
parsed (err e) = err e
parsed panic = panic

with_header : Outcome (Header × List ℕ) → Outcome FCall
unfolding parsed
with_header (ok (h, buff)) = parsed (parse_message h.type h buff)
with_header (err e) = err e
with_header panic = panic

-- The message behind the size field.
unfoldable pub parse_buffer : List ℕ → Outcome FCall
unfolding with_header
parse_buffer buff = with_header (parse_header buff)

with_reader : Reader → Outcome FCall → Outcome (FCall × Reader)
with_reader r (ok fc) = ok (fc, r)
with_reader r (err e) = err e
with_reader r panic = panic

with_buffer : Option (List ℕ × Reader) → Outcome (FCall × Reader)
unfolding with_reader
with_buffer none = err read_error
with_buffer (some (buff, r)) = with_reader r (parse_buffer buff)

-- `make([]byte, length-4)` subtracts on uint32.
read_message : ℕ → Reader → Outcome (FCall × Reader)
unfolding with_buffer
read_message length r =
    if ltb max_msg_len length
    then err (too_long length)
    else with_buffer (read_bytes ((length + 2 ^ 32 - 4) % 2 ^ 32) r)

with_size : Option (List ℕ × Reader) → Outcome (FCall × Reader)
unfolding read_message
with_size none = err read_error
with_size (some (sizebuff, r)) = read_message (from_little_e32 sizebuff).0 r

unfoldable pub parse_call : Reader → Outcome (FCall × Reader)
unfolding with_size
parse_call r = with_size (read_bytes 4 r)
