-- ===== src/Fs/Server/Data.antt =====
-- Read and Write of fs/server.go.
pub mod Directory
pub mod Listing
pub mod CreatedDir
pub mod Tag
use go9p.Base.{
  ℕ, ◌+◌, ◌-◌, ◌%◌, ◌^◌, List, [], ◌∷◌, ◌++◌, length, Option, none, some, Bool, true, false, not,
  ◌==◌, ◌||◌, ltb, if◌then◌else◌, bytes, bit_and,
}
use go9p.Proto.Stat.{Stat, compose_length, compose_stat}
use go9p.Proto.Header.Types.{rread_type, rwrite_type}
use go9p.Proto.Messages.Read.{TRead}
use go9p.Proto.Messages.Write.{TWrite}
use go9p.Proto.Call.{rread, rwrite}
use go9p.Fs.Permissions.{oread, owrite, ordwr, oexec}
use go9p.Fs.Result.{Result, ok, err, panic}
use go9p.Fs.Nodes.{Nodes, Kind, mod_dir, plain_dir, file, other}
use go9p.Fs.Server.Files.{dmdir}
use go9p.Fs.Server.Conn.{
  Extra, nothing, listing, auth_error, auth_name, FidInfo, to_conn_fid, Reply, reply, crash,
  error_reply, State, Step,
}

-- The first loop of readDir: the children from the one that holds the byte at the offset on;
-- `none` if the offset is beyond them all. Lengths are added on uint64.
unfoldable pub from_offset : ℕ → ℕ → List Stat → Option (List Stat)
from_offset offset length [] = none
from_offset offset length (st ∷ sts) =
    let rest = from_offset offset ((length + compose_length st) % 2 ^ 64) sts in
    if ltb offset ((length + compose_length st) % 2 ^ 64) then some (st ∷ sts) else rest

append_entry : List ℕ → Option (List ℕ) → Option (List ℕ)
append_entry contents none = none
append_entry contents (some entry) = some (contents ++ entry)

-- What the second loop does with an entry that is too long for the rest of the count, and with one
-- that is not.
take_entry : Bool → List ℕ → Option (List ℕ) → (List ℕ → Option (List ℕ)) → Option (List ℕ)
take_entry true contents appended next = some contents
take_entry false contents none next = none
take_entry false contents (some contents') next = next contents'

-- The second loop: whole entries while they fit the count; `none` is a panic of Compose.
unfoldable pub take_entries : ℕ → List ℕ → List Stat → Option (List ℕ)
unfolding append_entry take_entry
take_entries count contents [] = some contents
take_entries count contents (st ∷ sts) =
    take_entry (ltb count ((length contents % 2 ^ 32 + compose_length st) % 2 ^ 32)) contents
      (append_entry contents (compose_stat st)) (λ contents'. take_entries count contents' sts)

unfoldable pub data_reply : ℕ → List ℕ → Reply
data_reply tag contents = reply (
    rread (record {
      header = record { type = rread_type; tag = tag };
      count = length contents % 2 ^ 32;
      bytes = contents;
    }))

dir_entries : ℕ → Option (List ℕ) → Reply
unfolding data_reply
dir_entries tag none = crash
dir_entries tag (some contents) = data_reply tag contents

dir_start : TRead → Option (List Stat) → Reply
unfolding dir_entries
dir_start t none = data_reply t.header.tag []
dir_start t (some sts) = dir_entries t.header.tag (take_entries t.count [] sts)

-- readDir, given the stats of the children that were listed when the fid was opened.
unfoldable pub read_dir : TRead → List Stat → Reply
unfolding dir_start
read_dir t sts = dir_start t (from_offset t.offset 0 sts)

module _ {W N : Type 0} (nodes : Nodes W N) where
  stats : W → List N → List Stat
  stats w [] = []
  stats w (n ∷ ns) = nodes.stat w n ∷ stats w ns

  -- `info.extra.([]FSNode)` panics on anything else.
  read_listing : TRead → Extra N → W → Reply
  unfolding stats
  read_listing t (listing children) w = read_dir t (stats w children)
  read_listing t nothing w = crash
  read_listing t (auth_error _) w = crash
  read_listing t (auth_name _) w = crash

  file_read : TRead → Result (List ℕ) → Reply
  unfolding data_reply
  file_read t (ok contents) = data_reply t.header.tag contents
  file_read t (err e) = error_reply t.header.tag e
  file_read t panic = crash

  read_node : TRead → FidInfo N → Kind → State W N → Step W N
  unfolding file_read read_listing
  read_node t info file s =
      let (r, w) = nodes.read_file s.world info.n (to_conn_fid s.conn t.fid) t.offset t.count in
      (file_read t r, record s { world = w })
  read_node t info mod_dir s = (read_listing t info.extra s.world, s)
  read_node t info plain_dir s = (read_listing t info.extra s.world, s)
  read_node t info other s = (error_reply t.header.tag (bytes "2File not opened."), s)

  -- The low bits of the mode under which a fid is open.
  abbrev pub opened_mode : FidInfo N → ℕ
  opened_mode info = bit_and info.open_mode 0x0F

  read_info : TRead → Option (FidInfo N) → State W N → Step W N
  unfolding read_node
  read_info t none s = (error_reply t.header.tag (bytes "Bad Fid."), s)
  read_info t (some info) s =
      if (opened_mode info == oread) || ((opened_mode info == ordwr) || (opened_mode info == oexec))
      then read_node t info (nodes.kind info.n) s
      else (error_reply t.header.tag (bytes "1File not opened."), s)

  -- `c.msize-11` is a subtraction on uint32.
  clamp_count : TRead → ℕ → TRead
  clamp_count t msize =
      let most = (msize + 2 ^ 32 - 11) % 2 ^ 32 in
      if ltb most t.count then record t { count = most } else t

  unfoldable pub read : TRead → State W N → Step W N
  unfolding read_info clamp_count
  read t s = read_info (clamp_count t s.conn.msize) (s.conn.fids t.fid) s

  file_written : TWrite → Result ℕ → Reply
  file_written t (ok count) = reply (
      rwrite (record { header = record { type = rwrite_type; tag = t.header.tag }; count = count }))
  file_written t (err e) = error_reply t.header.tag e
  file_written t panic = crash

  write_node : TWrite → FidInfo N → Kind → State W N → Step W N
  unfolding file_written
  write_node t info file s =
      let (r, w) = nodes.write_file s.world info.n (to_conn_fid s.conn t.fid) t.offset t.bytes in
      (file_written t r, record s { world = w })
  write_node t info _ s = (error_reply t.header.tag (bytes "Cannot write to directory."), s)

  write_info : TWrite → Option (FidInfo N) → State W N → Step W N
  unfolding write_node
  write_info t none s = (error_reply t.header.tag (bytes "Bad Fid."), s)
  write_info t (some info) s =
      if not ((opened_mode info == owrite) || (opened_mode info == ordwr))
      then (error_reply t.header.tag (bytes "File not opened for write."), s)
      else if not (bit_and (nodes.stat s.world info.n).mode dmdir == 0)
      then (error_reply t.header.tag (bytes "Cannot write to directory."), s)
      else write_node t info (nodes.kind info.n) s

  unfoldable pub write : TWrite → State W N → Step W N
  unfolding write_info
  write t s = write_info t (s.conn.fids t.fid) s
