-- ===== src/Fs/Server/Attributes.antt =====
-- Stat and Wstat of fs/server.go.
pub mod Fields
use go9p.Base.{
  ℕ, ◌-◌, ◌^◌, [], ◌∷◌, Option, none, some, Bool, true, false, not, ◌==◌, ◌&&◌, ◌||◌, if◌then◌else◌,
  bytes, bit_and, bit_or, same_text,
}
use go9p.Proto.Stat.{Stat}
use go9p.Proto.Header.Types.{rstat_type, rwstat_type}
use go9p.Proto.Messages.StatCall.{TStat}
use go9p.Proto.Messages.Wstat.{TWstat}
use go9p.Proto.Call.{rstat, rwstat}
use go9p.Fs.Permissions.{
  owrite, Relation, ugo_user, ugo_group, ugo_other, user_relation, user_in_group, open_permission,
}
use go9p.Fs.Result.{Text, Result, ok, err, panic}
use go9p.Fs.Nodes.{Nodes, FileSystem}
use go9p.Fs.Server.Conn.{FidInfo, Reply, reply, crash, error_reply, State, Step}

-- The "don't touch" values.
abbrev pub max_uint32 : ℕ
max_uint32 = 2 ^ 32 - 1

abbrev pub max_uint64 : ℕ
max_uint64 = 2 ^ 64 - 1

abbrev is_empty : Text → Bool
is_empty [] = true
is_empty (_ ∷ _) = false

abbrev is_owner : Relation → Bool
is_owner ugo_user = true
is_owner ugo_group = false
is_owner ugo_other = false

-- The checks before anything is changed: the name, mode and mtime want the owner, the length wants
-- write permission, and the group wants the owner who is a member of the new group.
unfoldable pub wstat_permitted : Text → Stat → Stat → Bool
wstat_permitted uname stat newstat =
    let owner = is_owner (user_relation uname stat) in
    (is_empty newstat.name || owner)
    && (((newstat.length == max_uint64)
          || ((newstat.length == stat.length) || open_permission stat uname owrite))
        && (((newstat.mode == max_uint32) || ((newstat.mode == stat.mode) || owner))
            && (((newstat.mtime == max_uint32) || ((newstat.mtime == stat.mtime) || owner))
                && (is_empty newstat.gid
                    || (same_text stat.uid uname && user_in_group uname newstat.gid)))))

-- `(stat.Mode & ^uint32(0x1FF)) | (newstat.Mode & 0x000001FF)`
unfoldable pub change_mode : ℕ → ℕ → ℕ
change_mode mode newmode = bit_or (bit_and mode (max_uint32 - 0x1FF)) (bit_and newmode 0x000001FF)

-- "Do the changes": each field that is not "don't touch".
unfoldable pub change_stat : Stat → Stat → Stat
unfolding change_mode
change_stat stat newstat = record stat {
  name = (if is_empty newstat.name then stat.name else newstat.name);
  length = (if newstat.length == max_uint64 then stat.length else newstat.length);
  mode = (if newstat.mode == max_uint32 then stat.mode else change_mode stat.mode newstat.mode);
  mtime = (if newstat.mtime == max_uint32 then stat.mtime else newstat.mtime);
  gid = (if is_empty newstat.gid then stat.gid else newstat.gid);
}

module _ {W N : Type 0} (nodes : Nodes W N) (fs : FileSystem W N) where
  stat_info : TStat → Option (FidInfo N) → State W N → Step W N
  stat_info t none s = (error_reply t.header.tag (bytes "Bad Fid."), s)
  stat_info t (some info) s = (
    reply (
        rstat (record {
          header = record { type = rstat_type; tag = t.header.tag };
          stat = nodes.stat s.world info.n;
        })),
    s,
  )

  -- Stat
  unfoldable pub stat_fid : TStat → State W N → Step W N
  unfolding stat_info
  stat_fid t s = stat_info t (s.conn.fids t.fid) s

  unfoldable pub stat_written : TWstat → Result (Unit {0}) → Reply
  stat_written t (ok _) =
      reply (rwstat (record { header = record { type = rwstat_type; tag = t.header.tag } }))
  stat_written t (err e) = error_reply t.header.tag e
  stat_written t panic = crash

  wstat_info : TWstat → Option (FidInfo N) → State W N → Step W N
  unfolding stat_written wstat_permitted change_stat
  wstat_info t none s = (error_reply t.header.tag (bytes "Bad Fid."), s)
  wstat_info t (some info) s =
      let stat = nodes.stat s.world info.n in
      if not (fs.ignore_perms || wstat_permitted info.uname stat t.stat)
      then (error_reply t.header.tag (bytes "Permission denied."), s)
      else (let (r, w) = nodes.write_stat s.world info.n (change_stat stat t.stat) in
          (stat_written t r, record s { world = w }))

  -- Wstat
  unfoldable pub wstat : TWstat → State W N → Step W N
  unfolding wstat_info
  wstat t s = wstat_info t (s.conn.fids t.fid) s
