-- ===== src/Fs/Server/Files/Opening.antt =====
-- What a successful open of fs/server.go rests on.
use go9p.Base.{
  past_error, ℕ, Option, none, some, Bool, true, false, not, ◌≢◌, arith, ◌==◌, ◌||◌, bytes, bit_and,
  ◌≡◌, refl, ap, ==_refl,
}
use mathlib.Core.Path.{subst}
use go9p.Proto.Messages.Open.{TOpen, ROpen}
use go9p.Proto.Call.{ropen}
use go9p.Fs.Permissions.{owrite, ordwr, omode_none}
use go9p.Fs.Result.{Text, Result, ok, err, panic}
use go9p.Fs.Nodes.{Nodes, FileSystem, Kind, mod_dir, plain_dir, file, other}
use go9p.Fs.Server.Conn.{Extra, FidInfo, store, reply, error_reply, State, Step}
use go9p.Fs.Server.Files.{may_open, open_fid, open_info, open_node, open_dir, opened, file_opened}

-- The fid after the open: the same node and user, open in the mode of the request.
pub record Now {W N : Type 0} (t : TOpen) (info : FidInfo N) (s' : State W N) : Type 0 where
  pub now : FidInfo N
  pub bound : s'.conn.fids t.fid ≡ some now
  pub same_node : now.n ≡ info.n
  pub same_user : now.uname ≡ info.uname
  pub mode : now.open_mode ≡ t.mode

-- A directory is opened for reading or executing only.
unfoldable pub dir_mode : Kind → ℕ → Bool
dir_mode mod_dir omode = not ((omode == owrite) || (omode == ordwr))
dir_mode plain_dir omode = not ((omode == owrite) || (omode == ordwr))
dir_mode file omode = true
dir_mode other omode = true

not-not : (b : Bool) → not b ≡ false → b ≡ true
not-not b h = ground arith

module _ {W N : Type 0} (nodes : Nodes W N) (fs : FileSystem W N) where
  -- The fid was bound and closed, its user may open the node in the mode, and now it is open.
  pub record Opens (t : TOpen) (s s' : State W N) : Type 0 where
    pub info : FidInfo N
    pub was_bound : s.conn.fids t.fid ≡ some info
    pub was_closed : (info.open_mode == omode_none) ≡ true
    pub allowed : may_open nodes fs s.world info (bit_and t.mode 0x0F) ≡ true
    pub fit_for_dir : dir_mode (nodes.kind info.n) (bit_and t.mode 0x0F) ≡ true
    pub after : Now t info s'

  error_is_no_open :
      (tag : ℕ) (why : Text) (s s' : State W N) (r : ROpen)
      → ◌≢◌ {A = Step W N} (error_reply tag why, s) (reply (ropen r), s')
  unfolding error_reply
  error_is_no_open tag why s s' r e = cc

  opened-Now :
      (t : TOpen) (info : FidInfo N) (extra : Extra N) (s s' : State W N) (r : ROpen)
      → opened nodes fs t info extra s ≡ (reply (ropen r), s')
      → Now t info s'
  unfolding opened store
  opened-Now t info extra s s' r e =
      subst (λ s. Now t info s) (ap (λ p. p.1) e)
        (record {
          now = record info {
            open_mode = t.mode;
            open_offset = (nodes.stat s.world info.n).length;
            extra = extra;
          };
          bound = rw (==_refl t.fid) refl;
          same_node = refl;
          same_user = refl;
          mode = refl;
        })

  open_dir-Now :
      (t : TOpen) (info : FidInfo N) (s s' : State W N) (r : ROpen)
      → open_dir nodes fs t info s ≡ (reply (ropen r), s')
      → (not ((bit_and t.mode 0x0F == owrite) || (bit_and t.mode 0x0F == ordwr)) ≡ true)
        × Now t info s'
  unfolding open_dir
  open_dir-Now t info s s' r e =
      let omode = bit_and t.mode 0x0F in
      let (readable, e') =
        past_error ((omode == owrite) || (omode == ordwr)) _ _ _
          (error_is_no_open t.header.tag (bytes "Cannot write to directory.") s s' r) e in
      (ap not readable, opened-Now t info _ s s' r e')

  file_opened-Now :
      (t : TOpen) (info : FidInfo N) (o : Result (Unit {0})) (s s' : State W N) (r : ROpen)
      → file_opened nodes fs t info o s ≡ (reply (ropen r), s')
      → Now t info s'
  unfolding file_opened
  file_opened-Now t info (ok _) s s' r e = opened-Now t info info.extra s s' r e
  file_opened-Now t info (err x) s s' r e = absurd (error_is_no_open t.header.tag x s s' r e)
  file_opened-Now t info panic s s' r e = absurd cc

  open_node-Now :
      (t : TOpen) (info : FidInfo N) (k : Kind) (s s' : State W N) (r : ROpen)
      → open_node nodes fs t info k s ≡ (reply (ropen r), s')
      → (dir_mode k (bit_and t.mode 0x0F) ≡ true) × Now t info s'
  unfolding open_node dir_mode
  open_node-Now t info mod_dir s s' r e = open_dir-Now t info s s' r e
  open_node-Now t info plain_dir s s' r e = open_dir-Now t info s s' r e
  open_node-Now t info file s s' r e = (refl, file_opened-Now t info _ _ s' r e)
  open_node-Now t info other s s' r e = (refl, opened-Now t info info.extra s s' r e)

  open_info-Opens :
      (t : TOpen) (o : Option (FidInfo N)) (s s' : State W N) (r : ROpen)
      → s.conn.fids t.fid ≡ o
      → open_info nodes fs t o s ≡ (reply (ropen r), s')
      → Opens t s s'
  unfolding open_info
  open_info-Opens t none s s' r at e =
      absurd (error_is_no_open t.header.tag (bytes "Bad Fid.") s s' r e)
  open_info-Opens t (some info) s s' r at e =
      let (closed, e1) =
        past_error (not (info.open_mode == omode_none)) _ _ _
          (error_is_no_open t.header.tag (bytes "Fid already open.") s s' r) e in
      let (granted, e2) =
        past_error (not (may_open nodes fs s.world info (bit_and t.mode 0x0F))) _ _ _
          (error_is_no_open t.header.tag (bytes "Permission denied.") s s' r) e1 in
      let (for_dir, now) = open_node-Now t info (nodes.kind info.n) s s' r e2 in
      record {
        info = info;
        was_bound = at;
        was_closed = not-not _ closed;
        allowed = not-not _ granted;
        fit_for_dir = for_dir;
        after = now;
      }

  -- If Open replies Ropen, the fid was bound and not open, its user's permissions (or ignorePerms)
  -- allow the mode, a directory is not opened for writing, and after it the fid is open in that
  -- mode, at the same node and for the same user.
  pub open_fid-Opens :
      (t : TOpen) (s s' : State W N) (r : ROpen)
      → open_fid nodes fs t s ≡ (reply (ropen r), s')
      → Opens t s s'
  unfolding open_fid
  open_fid-Opens t s s' r e = open_info-Opens t (s.conn.fids t.fid) s s' r refl e
