-- ===== src/Fs/Server/Session/Trust.antt =====
-- Auth, Attach and Clunk, and the users of the fids.
use go9p.Base.{ℕ, Option, none, some, Bool, true, false, ◌==◌, if◌then◌else◌, ◌≡◌, inl, inr, refl}
use go9p.Proto.Messages.Auth.{TAuth}
use go9p.Proto.Messages.Attach.{TAttach}
use go9p.Proto.Messages.Clunk.{TClunk}
use go9p.Fs.Permissions.{omode_none}
use go9p.Fs.Result.{Text, Result, ok, err, panic}
use go9p.Fs.Nodes.{Nodes, FileSystem, Kind, mod_dir, plain_dir, file, other}
use go9p.Fs.Server.Conn.{
  Extra, nothing, listing, auth_error, auth_name, FidInfo, new_fid_info, State, Step,
}
use go9p.Fs.Server.Conn.Trust.{
  ProvedBy, TrustedIfBound, AllTrusted, store-AllTrusted, delete-AllTrusted, Keeps, if-Keeps,
}
use go9p.Fs.Server.Session.{
  auth, auth_opened, authenticated, with_extra, auth_extra, attach, attach_as, attach_info,
  attach_extra, clunk, clunk_info, clunk_node,
}

module _ {W N : Type 0} (nodes : Nodes W N) (fs : FileSystem W N) (Proved : Text → Type 0) where
  auth_opened-Keeps :
      (t : TAuth) (n : N) (r : Result (Unit {0})) (s : State W N)
      → AllTrusted Proved s.conn
      → Keeps Proved (auth_opened nodes fs t n r s)
  unfolding auth_opened
  auth_opened-Keeps t n (ok _) s h = record {
    kept = store-AllTrusted Proved s.conn t.afid _ h (record { user = inl refl; proof = tt });
  }
  auth_opened-Keeps t n (err e) s h = record { kept = h }
  auth_opened-Keeps t n panic s h = record { kept = h }

  pub auth-Keeps :
      (t : TAuth) (s : State W N) → AllTrusted Proved s.conn → Keeps Proved (auth nodes fs t s)
  unfolding auth
  auth-Keeps t s h =
      if-Keeps Proved fs.has_auth _ _ (auth_opened-Keeps t _ _ _ h) (record { kept = h })

  attach_extra-Keeps :
      (t : TAttach) (e : Extra N) (s : State W N)
      → AllTrusted Proved s.conn
      → ProvedBy Proved e
      → Keeps Proved (attach_extra nodes fs t e s)
  unfolding attach_extra attach_as new_fid_info
  attach_extra-Keeps t (auth_name name) s h p = record {
    kept = store-AllTrusted Proved s.conn t.fid _ h (record { user = inr p; proof = tt });
  }
  attach_extra-Keeps t (auth_error e) s h p = record { kept = h }
  attach_extra-Keeps t nothing s h p = record { kept = h }
  attach_extra-Keeps t (listing l) s h p = record { kept = h }

  attach_info-Keeps :
      (t : TAttach) (o : Option (FidInfo N)) (s : State W N)
      → AllTrusted Proved s.conn
      → TrustedIfBound Proved o
      → Keeps Proved (attach_info nodes fs t o s)
  unfolding attach_info
  attach_info-Keeps t none s h p = record { kept = h }
  attach_info-Keeps t (some info) s h p = attach_extra-Keeps t info.extra s h p.proof

  when_wanted :
      (b : Bool) (x y : Step W N) → b ≡ true → Keeps Proved x → Keeps Proved (if b then x else y)
  when_wanted true x y e h = h
  when_wanted false x y e h = absurd cc

  pub attach-Keeps :
      (t : TAttach) (s : State W N)
      → fs.has_auth ≡ true
      → AllTrusted Proved s.conn
      → Keeps Proved (attach nodes fs t s)
  unfolding attach
  attach-Keeps t s e h =
      when_wanted fs.has_auth _ _ e (attach_info-Keeps t (s.conn.fids t.afid) s h (h t.afid))

  clunk_node-Keeps :
      (t : TClunk) (n : N) (k : Kind) (s : State W N)
      → AllTrusted Proved s.conn
      → Keeps Proved (clunk_node nodes fs t n k s)
  unfolding clunk_node
  clunk_node-Keeps t n file s h = record { kept = h }
  clunk_node-Keeps t n other s h = record { kept = h }
  clunk_node-Keeps t n mod_dir s h = record { kept = h }
  clunk_node-Keeps t n plain_dir s h = record { kept = h }

  clunk_info-Keeps :
      (t : TClunk) (o : Option (FidInfo N)) (s : State W N)
      → AllTrusted Proved s.conn
      → Keeps Proved (clunk_info nodes fs t o s)
  unfolding clunk_info
  clunk_info-Keeps t none s h = record { kept = h }
  clunk_info-Keeps t (some info) s h =
      if-Keeps Proved (info.open_mode == omode_none) _ _ (record { kept = h })
        (clunk_node-Keeps t info.n (nodes.kind info.n) s h)

  pub clunk-Keeps :
      (t : TClunk) (s : State W N) → AllTrusted Proved s.conn → Keeps Proved (clunk nodes fs t s)
  unfolding clunk
  clunk-Keeps t s h =
      clunk_info-Keeps t (s.conn.fids t.fid) _ (delete-AllTrusted Proved s.conn t.fid h)

  auth_extra-ProvedBy :
      (r : Result Text)
      → ((name : Text) → r ≡ ok name → Proved name)
      → ProvedBy Proved (auth_extra nodes fs r)
  unfolding auth_extra
  auth_extra-ProvedBy (ok name) p = p name refl
  auth_extra-ProvedBy (err e) p = tt
  auth_extra-ProvedBy panic p = tt

  with_extra-AllTrusted :
      (afid : ℕ) (e : Extra N) (o : Option (FidInfo N)) (s : State W N)
      → AllTrusted Proved s.conn
      → TrustedIfBound Proved o
      → ProvedBy Proved e
      → AllTrusted Proved (with_extra nodes fs afid e o s).conn
  unfolding with_extra
  with_extra-AllTrusted afid e none s h t p = h
  with_extra-AllTrusted afid e (some info) s h t p =
      store-AllTrusted Proved s.conn afid _ h (record { user = t.user; proof = p })

  pub authenticated-AllTrusted :
      (afid : ℕ) (r : Result Text) (s : State W N)
      → ((name : Text) → r ≡ ok name → Proved name)
      → AllTrusted Proved s.conn
      → AllTrusted Proved (authenticated nodes fs afid r s).conn
  unfolding authenticated
  authenticated-AllTrusted afid r s p h =
      with_extra-AllTrusted afid (auth_extra nodes fs r) (s.conn.fids afid) s h (h afid)
        (auth_extra-ProvedBy r p)
