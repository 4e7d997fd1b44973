-- ===== src/Tests/Auth.antt =====
-- A connection that authenticates as glenda and attaches.
use go9p.Base.{[], some, true, bytes, ◌≡◌, ◌⊎◌, refl}
use go9p.Proto.Header.Types.{tauth_type, tattach_type}
use go9p.Proto.Messages.Auth.{TAuth}
use go9p.Proto.Messages.Attach.{TAttach}
use go9p.Proto.Call.{tauth, tattach, get_tag}
use go9p.Serve.{handle_call}
use go9p.Fs.Result.{Text, ok}
use go9p.Fs.Nodes.{FileSystem}
use go9p.Fs.Server.{server, take_context, release_context}
use go9p.Fs.Server.Conn.{FidInfo, new_fid_info, new_conn, store, tag_context, drop_context, State}
use go9p.Fs.Server.Session.{auth, attach, authenticated}
use go9p.Fs.Server.Dispatch.Authentication.{Reached, start, call, auth_done, Reached-proved}
use go9p.Tests.Tree.{Place, root, places, fs}

abbrev auth_fs : FileSystem Unit Place
auth_fs = record fs { has_auth = true }

-- authFunc has let glenda in, and nobody else.
abbrev IsGlenda : Text → Type 0
IsGlenda name = name ≡ bytes "glenda"

abbrev auth_call : TAuth
auth_call = record {
  header = record { type = tauth_type; tag = 1 };
  afid = 9;
  uname = bytes "glenda";
  aname = [];
}

abbrev attach_call : TAttach
attach_call = record {
  header = record { type = tattach_type; tag = 1 };
  fid = 1;
  afid = 9;
  uname = bytes "root";
  aname = [];
}

abbrev before : State Unit Place
before = record { conn = new_conn 1; world = tt }

abbrev asked : State Unit Place
asked = (handle_call (server places auth_fs) (tauth auth_call) before).1

abbrev let_in : State Unit Place
let_in = authenticated places auth_fs 9 (ok (bytes "glenda")) asked

abbrev in_at_last : State Unit Place
in_at_last = (handle_call (server places auth_fs) (tattach attach_call) let_in).1

in_at_last-Reached : Reached places auth_fs IsGlenda in_at_last
in_at_last-Reached =
    call (auth_done 9 (ok (bytes "glenda")) (call (start 1 tt) (tauth auth_call)) (λ name e. cc))
      (tattach attach_call)

-- Whatever name the attach asks for.
abbrev attached_fid : FidInfo Place
attached_fid = new_fid_info (bytes "glenda") root

attached_fid-bound : in_at_last.conn.fids 1 ≡ some attached_fid
unfolding handle_call take_context tag_context auth authenticated attach store new_conn
    release_context drop_context get_tag
attached_fid-bound = refl

reached-proved_example : (attached_fid.uname ≡ []) ⊎ IsGlenda attached_fid.uname
reached-proved_example =
    Reached-proved places auth_fs IsGlenda in_at_last 1 attached_fid refl in_at_last-Reached
      attached_fid-bound
