-- ===== src/Fs/Server/Files.antt =====
-- Open, Create and Remove of fs/server.go.
pub mod Opening
pub mod Making
pub mod Trust
use go9p.Base.{
  ℕ, ◌^◌, ◌++◌, Option, none, some, Bool, not, ◌==◌, ◌||◌, if◌then◌else◌, bytes, bit_and,
}
use go9p.Proto.Header.Types.{ropen_type, rcreate_type, rremove_type}
use go9p.Proto.Messages.Open.{TOpen}
use go9p.Proto.Messages.Create.{TCreate}
use go9p.Proto.Messages.Remove.{TRemove}
use go9p.Proto.Call.{ropen, rcreate, rremove}
use go9p.Fs.Permissions.{owrite, ordwr, omode_none, open_permission}
use go9p.Fs.Result.{Text, Result, ok, err, panic}
use go9p.Fs.Nodes.{Nodes, FileSystem, Kind, mod_dir, plain_dir, file, other, Created}
use go9p.Fs.Server.Conn.{
  Extra, listing, FidInfo, derive_info, store, delete, to_conn_fid, Reply, reply, crash,
  error_reply, State, Step,
}

abbrev pub io_unit : ℕ
io_unit = 16384

abbrev pub dmdir : ℕ
dmdir = 2 ^ 31

module _ {W N : Type 0} (nodes : Nodes W N) (fs : FileSystem W N) where
  -- `s.fs.ignorePerms || openPermission(n, uname, omode)`
  unfoldable pub may_open : W → FidInfo N → ℕ → Bool
  may_open w info omode = fs.ignore_perms || open_permission (nodes.stat w info.n) info.uname omode

  -- The end of Open: the fid is open in the mode, and the reply names the node.
  opened : TOpen → FidInfo N → Extra N → State W N → Step W N
  opened t info extra s = (
    reply (
        ropen (record {
          header = record { type = ropen_type; tag = t.header.tag };
          qid = (nodes.stat s.world info.n).qid;
          iounit = io_unit;
        })),
    record s {
      conn = store s.conn t.fid (record info {
        open_mode = t.mode;
        open_offset = (nodes.stat s.world info.n).length;
        extra = extra;
      });
    },
  )

  open_dir : TOpen → FidInfo N → State W N → Step W N
  unfolding opened
  open_dir t info s =
      let omode = bit_and t.mode 0x0F in
      if (omode == owrite) || (omode == ordwr)
      then (error_reply t.header.tag (bytes "Cannot write to directory."), s)
      else opened t info (listing (nodes.children s.world info.n)) s

  file_opened : TOpen → FidInfo N → Result (Unit {0}) → State W N → Step W N
  unfolding opened
  file_opened t info (ok _) s = opened t info info.extra s
  file_opened t info (err e) s = (error_reply t.header.tag e, s)
  file_opened t info panic s = (crash, s)

  open_node : TOpen → FidInfo N → Kind → State W N → Step W N
  unfolding open_dir file_opened
  open_node t info mod_dir s = open_dir t info s
  open_node t info plain_dir s = open_dir t info s
  open_node t info file s =
      let (r, w) = nodes.open_file s.world info.n (to_conn_fid s.conn t.fid) t.mode in
      file_opened t info r (record s { world = w })
  open_node t info other s = opened t info info.extra s

  open_info : TOpen → Option (FidInfo N) → State W N → Step W N
  unfolding open_node may_open
  open_info t none s = (error_reply t.header.tag (bytes "Bad Fid."), s)
  open_info t (some info) s =
      if not (info.open_mode == omode_none)
      then (error_reply t.header.tag (bytes "Fid already open."), s)
      else if not (may_open s.world info (bit_and t.mode 0x0F))
      then (error_reply t.header.tag (bytes "Permission denied."), s)
      else open_node t info (nodes.kind info.n) s

  -- Open
  unfoldable pub open_fid : TOpen → State W N → Step W N
  unfolding open_info
  open_fid t s = open_info t (s.conn.fids t.fid) s

  create_done : TCreate → N → Result (Unit {0}) → State W N → Step W N
  create_done t n (err e) s = (error_reply t.header.tag e, s)
  create_done t n panic s = (crash, s)
  create_done t n (ok _) s = (
    reply (
        rcreate (record {
          header = record { type = rcreate_type; tag = t.header.tag };
          qid = (nodes.stat s.world n).qid;
          iounit = io_unit;
        })),
    s,
  )

  -- `proto.Mode(t.Mode)` is kept as it came, `None` included.
  create_open : TCreate → N → Kind → State W N → Step W N
  unfolding create_done
  create_open t n file s =
      let (r, w) = nodes.open_file s.world n (to_conn_fid s.conn t.fid) t.mode in
      create_done t n r (record s { world = w })
  create_open t n _ s = create_done t n (ok tt) s

  -- A hook that returns neither a node nor an error makes `new.Stat()` panic.
  created : TCreate → FidInfo N → State W N → Created N × W → Step W N
  unfolding create_open
  created t info s (err e, w) = (error_reply t.header.tag e, record s { world = w })
  created t info s (panic, w) = (crash, record s { world = w })
  created t info s (ok none, w) = (crash, record s { world = w })
  created t info s (ok (some n), w) = create_open t n (nodes.kind n) (record {
    conn = store s.conn t.fid (record (derive_info info n) { open_mode = t.mode });
    world = w;
  })

  create_by :
      TCreate
      → FidInfo N
      → Text
      → Option (W → N → Text → Text → ℕ → ℕ → Created N × W)
      → State W N
      → Step W N
  unfolding created
  create_by t info why none s = (error_reply t.header.tag why, s)
  create_by t info why (some create) s =
      created t info s (create s.world info.n info.uname t.name t.perm t.mode)

  create_in_dir : TCreate → FidInfo N → State W N → Step W N
  unfolding create_by
  create_in_dir t info s =
      if bit_and t.perm dmdir == 0
      then create_by t info (bytes "Cannot create files.") fs.create_file s
      else create_by t info (bytes "Cannot create directories.") fs.create_dir s

  create_node : TCreate → FidInfo N → Kind → State W N → Step W N
  unfolding create_in_dir
  create_node t info mod_dir s = create_in_dir t info s
  create_node t info plain_dir s = create_in_dir t info s
  create_node t info file s = (
    error_reply t.header.tag
        ((nodes.stat s.world info.n).name ++ bytes ": IS A FILE Not a directory"),
    s,
  )
  create_node t info other s =
      (error_reply t.header.tag ((nodes.stat s.world info.n).name ++ bytes ": Not a directory"), s)

  create_info : TCreate → Option (FidInfo N) → State W N → Step W N
  unfolding create_node may_open
  create_info t none s = (error_reply t.header.tag (bytes "Bad Fid."), s)
  create_info t (some info) s =
      if not (may_open s.world info owrite)
      then (error_reply t.header.tag (bytes "Permission denied."), s)
      else create_node t info (nodes.kind info.n) s

  -- Create
  unfoldable pub create : TCreate → State W N → Step W N
  unfolding create_info
  create t s = create_info t (s.conn.fids t.fid) s

  removed : TRemove → Result (Unit {0}) → Reply
  removed t (ok _) =
      reply (rremove (record { header = record { type = rremove_type; tag = t.header.tag } }))
  removed t (err e) = error_reply t.header.tag e
  removed t panic = crash

  remove_by : TRemove → FidInfo N → Option (W → N → Result (Unit {0}) × W) → State W N → Step W N
  unfolding removed
  remove_by t info none s = (error_reply t.header.tag (bytes "Cannot delete files."), s)
  remove_by t info (some remove_file) s =
      let (r, w) = remove_file s.world info.n in (removed t r, record s { world = w })

  remove_node : TRemove → FidInfo N → State W N → Step W N
  unfolding remove_by
  remove_node t info s = remove_by t info fs.remove_file s

  remove_info : TRemove → Option (FidInfo N) → State W N → Step W N
  unfolding remove_node may_open
  remove_info t none s = (error_reply t.header.tag (bytes "Bad Fid."), s)
  remove_info t (some info) s =
      if not (may_open s.world info owrite)
      then (error_reply t.header.tag (bytes "Permission denied."), s)
      else remove_node t info s

  -- The fid is deleted first, whatever follows.
  unfoldable pub remove : TRemove → State W N → Step W N
  unfolding remove_info
  remove t s = remove_info t (s.conn.fids t.fid) (record s { conn = delete s.conn t.fid })
