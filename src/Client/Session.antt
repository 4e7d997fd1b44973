-- ===== src/Client/Session.antt =====
-- client/client.go: NewClient and stop.
use go9p.Base.{ℕ, [], Option, none, some, true, false, bytes}
use go9p.Proto.Header.Types.{tversion_type, tauth_type, tattach_type}
use go9p.Proto.Call.{FCall, trversion, tauth, rauth, tattach, rattach, rerror}
use go9p.Fs.Result.{Text}
use go9p.Client.{
  Client, nofid, root_fid, Delivery, GoError, message, Outcome, done, panicked, blocked, unfinished,
  World, Response, replied, lost, take_fid, get_response,
}
use go9p.Client.Run.{Run, pure, ◌>>=◌, fail, on_client, update_client}
use go9p.Client.Files.{File, close}

-- The composite literal of NewClient.
unfoldable pub fresh_client : Client
fresh_client = record {
  tags = [];
  last_tag = 1;
  fids = [];
  last_fid = 0;
  calls = [];
  tag_fids = [];
  closed = false;
  path_cache = [];
  msize = 0;
  background = [];
}

-- `hang_up` is what closing the connection does behind it.
module _ {S : Type 0} (send : FCall → S → Delivery × S) (hang_up : S → S) where
  unfoldable pub stop : Run S Unit
  stop w = (done tt, record { client = record w.client { closed = true }; peer = hang_up w.peer })

  unfoldable pub stop_with : {A : Type 0} → GoError → Run S A
  stop_with e = do _ ← stop; fail e

  -- The texts that hold a whole response leave it out.
  version_response : Response → Run S Unit
  version_response (replied (trversion v)) = update_client (λ c. record c { msize = v.msize })
  version_response (replied (rerror r)) = stop_with (message r.ename)
  version_response (replied _) =
      stop_with (message (bytes "Unexpected response while performing version"))
  version_response (lost e) = stop_with e

  auth_response : Response → Run S Unit
  auth_response (replied (rauth r)) = pure tt
  auth_response (replied (rerror r)) = stop_with (message r.ename)
  auth_response (replied _) =
      stop_with (message (bytes "Unexpected response while performing auth"))
  auth_response (lost e) = stop_with e

  -- "Failed to attach to filesystem: %v"
  attach_response : Response → Run S Unit
  attach_response (replied (rattach r)) = pure tt
  attach_response (replied (rerror r)) = stop_with (message r.ename)
  attach_response (replied _) = stop_with (message (bytes "Unexpected response while attaching"))
  attach_response (lost e) = stop_with e

  unfoldable pub attach : Text → Text → ℕ → Run S Unit
  unfolding attach_response
  attach user aname afid = do
    res ← get_response send (
        tattach (record {
          header = record { type = tattach_type; tag = 0 };
          fid = root_fid;
          afid = afid;
          uname = user;
          aname = aname;
        }))
    attach_response res

  -- `defer f.Close()`, after the attach; the error of Close is dropped.
  close_after : {A : Type 0} → Outcome A → Outcome Unit × World S → Outcome A × World S
  close_after o (panicked, w) = (panicked, w)
  close_after o (blocked, w) = (blocked, w)
  close_after o (unfinished, w) = (unfinished, w)
  close_after o (_, w) = (o, w)

  close_auth : {A : Type 0} → File → Outcome A × World S → Outcome A × World S
  unfolding close_after
  close_auth f (blocked, w) = (blocked, w)
  close_auth f (unfinished, w) = (unfinished, w)
  close_auth f (o, w) = close_after o (close send f w)

  attach_and_close : Text → Text → File → (Text → File → Run S Unit) → Run S Unit
  unfolding close_auth
  attach_and_close user aname f auth_func w =
      close_auth f ((do _ ← auth_func user f; attach user aname f.fid) w)

  -- The branch of NewClient on `conf.authFunc != nil`, and the attach. `auth_func` works on the
  -- File of the afid, and its result is dropped.
  authenticate : Text → Text → Option (Text → File → Run S Unit) → Run S Unit
  unfolding auth_response attach_and_close
  authenticate user aname none = attach user aname nofid
  authenticate user aname (some auth_func) = do
    afid ← on_client take_fid
    res ← get_response send (
        tauth (record {
          header = record { type = tauth_type; tag = 0 };
          afid = afid;
          uname = user;
          aname = aname;
        }))
    _ ← auth_response res
    attach_and_close user aname (record { fid = afid; offset = 0; iounit = 0xFFFFFFFF }) auth_func

  started : Text → Text → Option (Text → File → Run S Unit) → Run S Unit
  unfolding version_response authenticate
  started user aname auth_func = do
    res ← get_response send (
        trversion (record {
          header = record { type = tversion_type; tag = 0 };
          msize = 65536;
          version = bytes "9P2000";
        }))
    _ ← version_response res
    authenticate user aname auth_func

  -- NewClient, on a connection with `s` behind it.
  unfoldable pub new_client :
      Text → Text → Option (Text → File → Run S Unit) → S → Outcome Unit × World S
  unfolding started
  new_client user aname auth_func s =
      started user aname auth_func (record { client = fresh_client; peer = s })
