-- ===== src/Tests/Tree.antt =====
-- A server on a directory of two files.
use go9p.Base.{
  ℕ, ◌+◌, ◌^◌, [], ◌∷◌, Option, none, some, false, bytes, same_text, if◌then◌else◌, ◌≡◌, refl,
  arith,
}
use go9p.Proto.Stat.{Stat}
use go9p.Proto.Stat.Entries.{entries, parse_stats}
use go9p.Proto.Marshal.{le_bytes}
use go9p.Proto.Marshal.Parser.{Outcome}
use go9p.Proto.Header.Types.{
  twalk_type, tversion_type, tread_type, topen_type, ropen_type, rversion_type, tclunk_type,
  twstat_type,
}
use go9p.Proto.Messages.Version.{TrVersion}
use go9p.Proto.Messages.Walk.{TWalk}
use go9p.Proto.Messages.Open.{TOpen, ROpen}
use go9p.Proto.Messages.Read.{TRead}
use go9p.Proto.Messages.Clunk.{TClunk}
use go9p.Proto.Messages.Wstat.{TWstat}
use go9p.Proto.Call.{twalk, trversion, ropen, get_tag}
use go9p.Serve.{reply, handle_call, dispatch}
use go9p.Fs.Permissions.{open_permission}
use go9p.Fs.Result.{Text, ok, err}
use go9p.Fs.Nodes.{Nodes, FileSystem, Kind, mod_dir, file}
use go9p.Fs.Server.{server}
use go9p.Fs.Server.Conn.{FidInfo, listing, new_fid_info, new_conn, store, State, error_reply}
use go9p.Fs.Server.Walk.{walk}
use go9p.Fs.Server.Walk.Resolve.{walk-resolve, walk_result, starts_with_dots, resolve}
use go9p.Fs.Server.Data.{read_dir, data_reply}
use go9p.Fs.Server.Data.Directory.{read_dir-fitting, fitting}
use go9p.Fs.Server.Data.Listing.{read_through-stats, read_through}
use go9p.Fs.Server.Files.{open_fid}
use go9p.Fs.Server.Files.Opening.{open_fid-Opens, Opens}
use go9p.Fs.Server.Dispatch.{handle_call-frame, clunk-releases}
use go9p.Fs.Server.Session.{version, clunk}
use go9p.Fs.Server.Session.Msize.{version-Agreed, Agreed}
use go9p.Fs.Server.Attributes.{wstat, change_mode, max_uint32, max_uint64}
use go9p.Fs.Server.Attributes.Fields.{change_mode-low_nine, wstat-NoChange, after_write}
use go9p.Tests.Files.{stat_of, two_stats, two_stats-IsStat}

pub data Place : Type 0 where
  root notes todo : Place

abbrev stat_at : Place → Stat
stat_at root = stat_of (bytes "/") (2 ^ 31 + 0x1ED) 0
stat_at notes = stat_of (bytes "notes") 0x1A4 5
stat_at todo = stat_of (bytes "todo") 0x1A4 0

abbrev kind_at : Place → Kind
kind_at root = mod_dir
kind_at notes = file
kind_at todo = file

abbrev child_at : Place → Text → Option Place
child_at root name =
    if same_text name (bytes "notes")
    then some notes
    else if same_text name (bytes "todo")
    then some todo
    else none
child_at _ name = none

-- The calls that the examples do not reach refuse.
abbrev pub places : Nodes Unit Place
places = record {
  kind = kind_at;
  stat = λ w n. stat_at n;
  write_stat = λ w n st. (ok tt, w);
  parent = λ w n. some root;
  child = λ w n name. child_at n name;
  children = λ w n. notes ∷ todo ∷ [];
  add_child = λ w n m. (err [], w);
  open_file = λ w n fid mode. (ok tt, w);
  read_file = λ w n fid offset count. (ok [], w);
  write_file = λ w n fid offset source. (err [], w);
  close_file = λ w n fid. (ok tt, w);
  full_path = λ w n. [];
}

abbrev pub fs : FileSystem Unit Place
fs = record {
  root = root;
  create_file = none;
  create_dir = none;
  walk_fail = none;
  remove_file = none;
  ignore_perms = false;
  has_auth = false;
  auth_file = λ w. (root, w);
}

-- Fid 1 of glenda is at the root.
abbrev pub at_root : FidInfo Place
at_root = new_fid_info (bytes "glenda") root

abbrev pub attached : State Unit Place
attached = record { conn = store (new_conn 1) 1 at_root; world = tt }

abbrev pub to_notes : TWalk
to_notes = record {
  header = record { type = twalk_type; tag = 3 };
  fid = 1;
  newfid = 2;
  nwname = 1;
  wname = bytes "notes" ∷ [];
}

attached-bound : attached.conn.fids 1 ≡ some at_root
unfolding store
attached-bound = refl

walk-resolve_example :
    walk places fs to_notes attached
    ≡ walk_result places to_notes at_root attached (some (notes, (stat_at notes).qid ∷ []))
unfolding starts_with_dots resolve new_fid_info
walk-resolve_example =
    walk-resolve places fs refl to_notes at_root attached attached-bound refl (omega arith) refl

-- The second read of the directory, after one entry.
abbrev pub read_at : ℕ → ℕ → TRead
read_at offset count = record {
  header = record { type = tread_type; tag = 4 };
  fid = 1;
  offset = offset;
  count = count;
}

read_dir-fitting_example :
    read_dir (read_at 72 100) two_stats
    ≡ data_reply 4 (entries (stat_of (bytes "todo") 0x1A4 0 ∷ []))
unfolding fitting le_bytes
read_dir-fitting_example =
    read_dir-fitting (read_at 72 100) (stat_of (bytes "notes") 0x1A4 5 ∷ [])
      (stat_of (bytes "todo") 0x1A4 0 ∷ []) (two_stats-IsStat.0, tt) two_stats-IsStat.1
      (omega arith) (omega arith) refl

read_through-stats_example :
    (read_through 3 (read_at 0 100) two_stats ≡ some (entries two_stats))
    × (parse_stats (entries two_stats) ≡ some (Outcome.ok two_stats))
unfolding le_bytes
read_through-stats_example =
    read_through-stats 3 (read_at 0 100) two_stats two_stats-IsStat (omega arith) (omega arith)
      (omega arith, (omega arith, tt)) refl (omega arith)

abbrev open_root : TOpen
open_root = record { header = record { type = topen_type; tag = 5 }; fid = 1; mode = 0 }

abbrev root_opened : State Unit Place
root_opened = record attached {
  conn =
      store attached.conn 1
        (record at_root { open_mode = 0; open_offset = 0; extra = listing (notes ∷ todo ∷ []) });
}

abbrev root_reply : ROpen
root_reply = record {
  header = record { type = ropen_type; tag = 5 };
  qid = (stat_at root).qid;
  iounit = 16384;
}

open_root-root_opened :
    open_fid places fs open_root attached ≡ (reply (ropen root_reply), root_opened)
unfolding open_fid new_fid_info store open_permission
open_root-root_opened = refl

open_fid-Opens_example : Opens places fs open_root attached root_opened
open_fid-Opens_example =
    open_fid-Opens places fs open_root attached root_opened root_reply open_root-root_opened

handle_call-frame_example :
    (handle_call (server places fs) (twalk to_notes) attached).1.conn.fids 1 ≡ some at_root
unfolding store
handle_call-frame_example =
    handle_call-frame places fs (twalk to_notes) 1 attached (λ e. absurd (omega (arith, e)))

abbrev clunk_root : TClunk
clunk_root = record { header = record { type = tclunk_type; tag = 6 }; fid = 1 }

clunk-releases_example :
    dispatch (server places fs) (twalk to_notes) (clunk places fs clunk_root attached).1
    ≡ some (error_reply 3 (bytes "Bad Fid."), (clunk places fs clunk_root attached).1)
unfolding get_tag
clunk-releases_example = clunk-releases places fs clunk_root (twalk to_notes) attached refl

abbrev offer : TrVersion
offer = record {
  header = record { type = tversion_type; tag = 65535 };
  msize = 8192;
  version = bytes "9P2000";
}

abbrev agreed : TrVersion
agreed = record offer { header = record { type = rversion_type; tag = 65535 } }

abbrev after_version : State Unit Place
after_version = record attached { conn = record attached.conn { msize = 8192 } }

offer-agreed : version places fs offer attached ≡ (reply (trversion agreed), after_version)
unfolding version
offer-agreed = refl

version-Agreed_example : Agreed offer attached after_version agreed
version-Agreed_example = version-Agreed places fs offer agreed attached after_version offer-agreed

-- A wstat of nothing.
abbrev sync : TWstat
sync = record {
  header = record { type = twstat_type; tag = 8 };
  fid = 1;
  stat = record (stat_of [] max_uint32 max_uint64) { mtime = max_uint32; gid = [] };
}

wstat-NoChange_example :
    wstat places fs sync attached ≡ after_write places fs sync attached (ok tt, tt)
wstat-NoChange_example =
    wstat-NoChange places fs sync attached at_root attached-bound
      (record { name = refl; length = refl; mode = refl; mtime = refl; gid = refl })

change_mode-low_nine_example : change_mode (2 ^ 31 + 0x1ED) 0x1C0 ≡ 2 ^ 31 + 0x1C0
change_mode-low_nine_example = change_mode-low_nine (2 ^ 31 + 0x1ED) 0x1C0 (omega arith)
