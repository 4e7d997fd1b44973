-- ===== src/Fs/Server/Files/Trust.antt =====
-- Open, Create and Remove, and the users of the fids.
use go9p.Base.{ℕ, Option, none, some, not, ◌==◌, ◌||◌, bit_and, bytes}
use go9p.Proto.Messages.Open.{TOpen}
use go9p.Proto.Messages.Create.{TCreate}
use go9p.Proto.Messages.Remove.{TRemove}
use go9p.Fs.Permissions.{owrite, ordwr, omode_none}
use go9p.Fs.Result.{Text, Result, ok, err, panic}
use go9p.Fs.Nodes.{Nodes, FileSystem, Kind, mod_dir, plain_dir, file, other, Created}
use go9p.Fs.Server.Conn.{Extra, listing, FidInfo, derive_info, State}
use go9p.Fs.Server.Conn.Trust.{
  ProvedBy, Trusted, TrustedIfBound, AllTrusted, store-AllTrusted, delete-AllTrusted,
  derive-Trusted, Keeps, if-Keeps,
}
use go9p.Fs.Server.Files.{
  open_fid, open_info, open_node, open_dir, file_opened, opened, create, create_info, create_node,
  create_in_dir, create_by, created, create_open, create_done, remove, remove_info, remove_node,
  remove_by, may_open, dmdir,
}

module _ {W N : Type 0} (nodes : Nodes W N) (fs : FileSystem W N) (Proved : Text → Type 0) where
  opened-Keeps :
      (t : TOpen) (info : FidInfo N) (extra : Extra N) (s : State W N)
      → AllTrusted Proved s.conn
      → Trusted Proved info
      → ProvedBy Proved extra
      → Keeps Proved (opened nodes fs t info extra s)
  unfolding opened
  opened-Keeps t info extra s h i p = record {
    kept = store-AllTrusted Proved s.conn t.fid _ h (record { user = i.user; proof = p });
  }

  open_dir-Keeps :
      (t : TOpen) (info : FidInfo N) (s : State W N)
      → AllTrusted Proved s.conn
      → Trusted Proved info
      → Keeps Proved (open_dir nodes fs t info s)
  unfolding open_dir
  open_dir-Keeps t info s h i =
      if-Keeps Proved ((bit_and t.mode 0x0F == owrite) || (bit_and t.mode 0x0F == ordwr)) _ _
        (record { kept = h })
        (opened-Keeps t info (listing (nodes.children s.world info.n)) s h i tt)

  file_opened-Keeps :
      (t : TOpen) (info : FidInfo N) (r : Result (Unit {0})) (s : State W N)
      → AllTrusted Proved s.conn
      → Trusted Proved info
      → Keeps Proved (file_opened nodes fs t info r s)
  unfolding file_opened
  file_opened-Keeps t info (ok _) s h i = opened-Keeps t info info.extra s h i i.proof
  file_opened-Keeps t info (err e) s h i = record { kept = h }
  file_opened-Keeps t info panic s h i = record { kept = h }

  open_node-Keeps :
      (t : TOpen) (info : FidInfo N) (k : Kind) (s : State W N)
      → AllTrusted Proved s.conn
      → Trusted Proved info
      → Keeps Proved (open_node nodes fs t info k s)
  unfolding open_node
  open_node-Keeps t info mod_dir s h i = open_dir-Keeps t info s h i
  open_node-Keeps t info plain_dir s h i = open_dir-Keeps t info s h i
  open_node-Keeps t info file s h i = file_opened-Keeps t info _ _ h i
  open_node-Keeps t info other s h i = opened-Keeps t info info.extra s h i i.proof

  open_info-Keeps :
      (t : TOpen) (o : Option (FidInfo N)) (s : State W N)
      → AllTrusted Proved s.conn
      → TrustedIfBound Proved o
      → Keeps Proved (open_info nodes fs t o s)
  unfolding open_info
  open_info-Keeps t none s h i = record { kept = h }
  open_info-Keeps t (some info) s h i =
      if-Keeps Proved (not (info.open_mode == omode_none)) _ _ (record { kept = h })
        (if-Keeps Proved (not (may_open nodes fs s.world info (bit_and t.mode 0x0F))) _ _
          (record { kept = h }) (open_node-Keeps t info (nodes.kind info.n) s h i))

  pub open-Keeps :
      (t : TOpen) (s : State W N) → AllTrusted Proved s.conn → Keeps Proved (open_fid nodes fs t s)
  unfolding open_fid
  open-Keeps t s h = open_info-Keeps t (s.conn.fids t.fid) s h (h t.fid)

  create_done-Keeps :
      (t : TCreate) (n : N) (r : Result (Unit {0})) (s : State W N)
      → AllTrusted Proved s.conn
      → Keeps Proved (create_done nodes fs t n r s)
  unfolding create_done
  create_done-Keeps t n (ok _) s h = record { kept = h }
  create_done-Keeps t n (err e) s h = record { kept = h }
  create_done-Keeps t n panic s h = record { kept = h }

  create_open-Keeps :
      (t : TCreate) (n : N) (k : Kind) (s : State W N)
      → AllTrusted Proved s.conn
      → Keeps Proved (create_open nodes fs t n k s)
  unfolding create_open
  create_open-Keeps t n file s h = create_done-Keeps t n _ _ h
  create_open-Keeps t n mod_dir s h = create_done-Keeps t n (ok tt) s h
  create_open-Keeps t n plain_dir s h = create_done-Keeps t n (ok tt) s h
  create_open-Keeps t n other s h = create_done-Keeps t n (ok tt) s h

  created-Keeps :
      (t : TCreate) (info : FidInfo N) (s : State W N) (c : Created N × W)
      → AllTrusted Proved s.conn
      → Trusted Proved info
      → Keeps Proved (created nodes fs t info s c)
  unfolding created
  created-Keeps t info s (ok none, w) h i = record { kept = h }
  created-Keeps t info s (ok (some n), w) h i =
      let d = derive-Trusted Proved info n i in
      create_open-Keeps t n (nodes.kind n) _ (
        store-AllTrusted Proved s.conn t.fid (record (derive_info info n) { open_mode = t.mode }) h
          (record { user = d.user; proof = d.proof }))
  created-Keeps t info s (err e, w) h i = record { kept = h }
  created-Keeps t info s (panic, w) h i = record { kept = h }

  create_by-Keeps :
      (t : TCreate) (info : FidInfo N) (why : Text)
      (hook : Option (W → N → Text → Text → ℕ → ℕ → Created N × W)) (s : State W N)
      → AllTrusted Proved s.conn
      → Trusted Proved info
      → Keeps Proved (create_by nodes fs t info why hook s)
  unfolding create_by
  create_by-Keeps t info why none s h i = record { kept = h }
  create_by-Keeps t info why (some create) s h i = created-Keeps t info s _ h i

  create_node-Keeps :
      (t : TCreate) (info : FidInfo N) (k : Kind) (s : State W N)
      → AllTrusted Proved s.conn
      → Trusted Proved info
      → Keeps Proved (create_node nodes fs t info k s)
  unfolding create_node create_in_dir
  create_node-Keeps t info mod_dir s h i =
      if-Keeps Proved (bit_and t.perm dmdir == 0) _ _
        (create_by-Keeps t info (bytes "Cannot create files.") fs.create_file s h i)
        (create_by-Keeps t info (bytes "Cannot create directories.") fs.create_dir s h i)
  create_node-Keeps t info plain_dir s h i =
      if-Keeps Proved (bit_and t.perm dmdir == 0) _ _
        (create_by-Keeps t info (bytes "Cannot create files.") fs.create_file s h i)
        (create_by-Keeps t info (bytes "Cannot create directories.") fs.create_dir s h i)
  create_node-Keeps t info file s h i = record { kept = h }
  create_node-Keeps t info other s h i = record { kept = h }

  create_info-Keeps :
      (t : TCreate) (o : Option (FidInfo N)) (s : State W N)
      → AllTrusted Proved s.conn
      → TrustedIfBound Proved o
      → Keeps Proved (create_info nodes fs t o s)
  unfolding create_info
  create_info-Keeps t none s h i = record { kept = h }
  create_info-Keeps t (some info) s h i =
      if-Keeps Proved (not (may_open nodes fs s.world info owrite)) _ _ (record { kept = h })
        (create_node-Keeps t info (nodes.kind info.n) s h i)

  pub create-Keeps :
      (t : TCreate) (s : State W N) → AllTrusted Proved s.conn → Keeps Proved (create nodes fs t s)
  unfolding create
  create-Keeps t s h = create_info-Keeps t (s.conn.fids t.fid) s h (h t.fid)

  remove_by-Keeps :
      (t : TRemove) (info : FidInfo N) (hook : Option (W → N → Result (Unit {0}) × W))
      (s : State W N)
      → AllTrusted Proved s.conn
      → Keeps Proved (remove_by nodes fs t info hook s)
  unfolding remove_by
  remove_by-Keeps t info none s h = record { kept = h }
  remove_by-Keeps t info (some remove) s h = record { kept = h }

  remove_info-Keeps :
      (t : TRemove) (o : Option (FidInfo N)) (s : State W N)
      → AllTrusted Proved s.conn
      → Keeps Proved (remove_info nodes fs t o s)
  unfolding remove_info remove_node
  remove_info-Keeps t none s h = record { kept = h }
  remove_info-Keeps t (some info) s h =
      if-Keeps Proved (not (may_open nodes fs s.world info owrite)) _ _ (record { kept = h })
        (remove_by-Keeps t info fs.remove_file s h)

  pub remove-Keeps :
      (t : TRemove) (s : State W N) → AllTrusted Proved s.conn → Keeps Proved (remove nodes fs t s)
  unfolding remove
  remove-Keeps t s h =
      remove_info-Keeps t (s.conn.fids t.fid) _ (delete-AllTrusted Proved s.conn t.fid h)
