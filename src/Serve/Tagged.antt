-- ===== src/Serve/Tagged.antt =====
-- The tags of the answers of server.go.
use go9p.Base.{ℕ, Option, none, some, Bool, true, false, if◌then◌else◌, ◌≡◌, refl}
use go9p.Proto.Messages.Version.{TrVersion}
use go9p.Proto.Messages.Auth.{TAuth}
use go9p.Proto.Messages.Attach.{TAttach}
use go9p.Proto.Messages.Walk.{TWalk}
use go9p.Proto.Messages.Open.{TOpen}
use go9p.Proto.Messages.Create.{TCreate}
use go9p.Proto.Messages.Read.{TRead}
use go9p.Proto.Messages.Write.{TWrite}
use go9p.Proto.Messages.Clunk.{TClunk}
use go9p.Proto.Messages.Remove.{TRemove}
use go9p.Proto.Messages.StatCall.{TStat}
use go9p.Proto.Messages.Wstat.{TWstat}
use go9p.Proto.Call.{
  FCall, get_tag, header_of, trversion, tauth, tattach, tflush, twalk, topen, tcreate, tread,
  twrite, tclunk, tremove, tstat, twstat,
}
use go9p.Serve.{
  Srv, Reply, reply, fail, crash, Answer, answer, no_answer, failed, dispatch, finish, handled,
  handle_call,
}

-- If a handler replies, then with the tag.
abbrev pub HasTag : ℕ → Reply → Type 0
HasTag tag (reply f) = get_tag f ≡ tag
HasTag tag fail = Unit
HasTag tag crash = Unit

-- Every handler replies with the tag of its call.
pub record Tagging {S : Type 0} (srv : Srv S) : Type 0 where
  pub version : (t : TrVersion) (s : S) → HasTag t.header.tag (srv.version t s).0
  pub auth : (t : TAuth) (s : S) → HasTag t.header.tag (srv.auth t s).0
  pub attach : (t : TAttach) (s : S) → HasTag t.header.tag (srv.attach t s).0
  pub walk : (t : TWalk) (s : S) → HasTag t.header.tag (srv.walk t s).0
  pub open_fid : (t : TOpen) (s : S) → HasTag t.header.tag (srv.open_fid t s).0
  pub create : (t : TCreate) (s : S) → HasTag t.header.tag (srv.create t s).0
  pub read : (t : TRead) (s : S) → HasTag t.header.tag (srv.read t s).0
  pub write : (t : TWrite) (s : S) → HasTag t.header.tag (srv.write t s).0
  pub clunk : (t : TClunk) (s : S) → HasTag t.header.tag (srv.clunk t s).0
  pub remove : (t : TRemove) (s : S) → HasTag t.header.tag (srv.remove t s).0
  pub stat_fid : (t : TStat) (s : S) → HasTag t.header.tag (srv.stat_fid t s).0
  pub wstat : (t : TWstat) (s : S) → HasTag t.header.tag (srv.wstat t s).0

-- If there is an answer, then with the tag.
abbrev pub AnswersTag : ℕ → Answer → Type 0
AnswersTag tag (answer f) = get_tag f ≡ tag
AnswersTag tag _ = Unit

module _ {S : Type 0} (srv : Srv S) where
  Dispatched : ℕ → Option (Reply × S) → Type 0
  Dispatched tag none = Unit
  Dispatched tag (some r) = HasTag tag r.0

  Dispatched-dispatch :
      (f : FCall) (s : S) → Tagging srv → Dispatched (get_tag f) (dispatch srv f s)
  unfolding Dispatched dispatch get_tag header_of
  Dispatched-dispatch (trversion t) s g = g.version t s
  Dispatched-dispatch (tauth t) s g = g.auth t s
  Dispatched-dispatch (tattach t) s g = g.attach t s
  Dispatched-dispatch (tflush t) s g = refl
  Dispatched-dispatch (twalk t) s g = g.walk t s
  Dispatched-dispatch (topen t) s g = g.open_fid t s
  Dispatched-dispatch (tcreate t) s g = g.create t s
  Dispatched-dispatch (tread t) s g = g.read t s
  Dispatched-dispatch (twrite t) s g = g.write t s
  Dispatched-dispatch (tclunk t) s g = g.clunk t s
  Dispatched-dispatch (tremove t) s g = g.remove t s
  Dispatched-dispatch (tstat t) s g = g.stat_fid t s
  Dispatched-dispatch (twstat t) s g = g.wstat t s
  Dispatched-dispatch _ s g = tt

  abbrev chosen : Bool → Answer × S → Answer × S → Answer × S
  chosen b x y = if b then x else y

  AnswersTag-if :
      (b : Bool) (tag : ℕ) (f : FCall) (s s' : S)
      → get_tag f ≡ tag
      → AnswersTag tag (chosen b (no_answer, s) (answer f, s')).0
  AnswersTag-if true tag f s s' e = tt
  AnswersTag-if false tag f s s' e = e

  AnswersTag-failed :
      (b : Bool) (tag : ℕ) (s s' : S) → AnswersTag tag (chosen b (no_answer, s) (failed, s')).0
  AnswersTag-failed true tag s s' = tt
  AnswersTag-failed false tag s s' = tt

  AnswersTag-finish :
      (tag ctx : ℕ) (r : Reply) (s : S)
      → HasTag tag r
      → AnswersTag tag (finish srv tag ctx (r, s)).0
  unfolding finish
  AnswersTag-finish tag ctx crash s h = tt
  AnswersTag-finish tag ctx (reply f) s h =
      AnswersTag-if (srv.is_cancelled ctx s) tag f s (srv.drop_context tag s) h
  AnswersTag-finish tag ctx fail s h =
      AnswersTag-failed (srv.is_cancelled ctx s) tag s (srv.drop_context tag s)

  AnswersTag-handled :
      (tag ctx : ℕ) (s : S) (o : Option (Reply × S))
      → Dispatched tag o
      → AnswersTag tag (handled srv tag ctx s o).0
  unfolding handled Dispatched
  AnswersTag-handled tag ctx s none h = tt
  AnswersTag-handled tag ctx s (some (r, s')) h = AnswersTag-finish tag ctx r s' h

  pub handle_call-AnswersTag :
      (f : FCall) (s : S) → Tagging srv → AnswersTag (get_tag f) (handle_call srv f s).0
  unfolding handle_call
  handle_call-AnswersTag f s g =
      let (ctx, s') = srv.tag_context (get_tag f) s in
      AnswersTag-handled (get_tag f) ctx s' (dispatch srv f s') (Dispatched-dispatch f s' g)
