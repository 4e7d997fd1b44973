-- ===== src/Fs/Server/Attributes/Fields.antt =====
-- What a wstat changes.
use go9p.Base.{
  ℕ, ◌+◌, ◌*◌, ◌/◌, ◌%◌, ◌^◌, ◌<◌, [], Bool, true, false, not, ◌||◌, some, bit_and, bit_or, ◌≡◌,
  refl, arith, ap, ◌∙◌, low_nine, above_nine, or_nine,
}
use go9p.Proto.Stat.{Stat}
use go9p.Proto.Messages.Wstat.{TWstat}
use go9p.Fs.Result.{Text, Result}
use go9p.Fs.Nodes.{Nodes, FileSystem}
use go9p.Fs.Server.Conn.{FidInfo, State, Step}
use go9p.Fs.Server.Attributes.{
  wstat, wstat_info, stat_written, wstat_permitted, change_mode, change_stat, max_uint32,
  max_uint64,
}

-- A new mode replaces the nine permission bits and keeps every other bit of the old one, which has
-- 32 bits: the directory bit, and DMAPPEND, DMEXCL and DMTMP as well.
pub change_mode-low_nine :
    (mode newmode : ℕ) → mode < 2 ^ 32 → change_mode mode newmode ≡ mode / 512 * 512 + newmode % 512
unfolding change_mode
change_mode-low_nine mode newmode h =
    ap (λ m. bit_or m (bit_and newmode 0x1FF)) (above_nine mode h)
    ∙ ap (bit_or (mode / 512 * 512)) (low_nine newmode)
    ∙ or_nine (mode / 512) (newmode % 512) (omega arith)

-- A stat that asks for no change.
pub record NoChange (new : Stat) : Type 0 where
  pub name : new.name ≡ []
  pub length : new.length ≡ max_uint64
  pub mode : new.mode ≡ max_uint32
  pub mtime : new.mtime ≡ max_uint32
  pub gid : new.gid ≡ []

change_stat-NoChange : (stat new : Stat) → NoChange new → change_stat stat new ≡ stat
unfolding change_stat
change_stat-NoChange stat new h = rw (h.name, h.length, h.mode, h.mtime, h.gid) refl

wstat_permitted-NoChange :
    (uname : Text) (stat new : Stat) → NoChange new → wstat_permitted uname stat new ≡ true
unfolding wstat_permitted
wstat_permitted-NoChange uname stat new h = rw (h.name, h.length, h.mode, h.mtime, h.gid) refl

refused : (ignored : Bool) {b : Bool} → b ≡ true → not (ignored || b) ≡ false
refused true e = refl
refused false e = ap not e

module _ {W N : Type 0} (nodes : Nodes W N) (fs : FileSystem W N) where
  unfoldable pub after_write : TWstat → State W N → Result (Unit {0}) × W → Step W N
  after_write t s (r, w) = (stat_written nodes fs t r, record s { world = w })

  -- A wstat that asks for no change is permitted to every user, and writes the stat back as it is.
  pub wstat-NoChange :
      (t : TWstat) (s : State W N) (info : FidInfo N)
      → s.conn.fids t.fid ≡ some info
      → NoChange t.stat
      → wstat nodes fs t s
        ≡ after_write t s (nodes.write_stat s.world info.n (nodes.stat s.world info.n))
  unfolding wstat wstat_info after_write
  wstat-NoChange t s info bound h =
      let stat = nodes.stat s.world info.n in
      let permitted = refused fs.ignore_perms (wstat_permitted-NoChange info.uname stat t.stat h) in
      ap (λ o. wstat_info nodes fs t o s) bound
      ∙ rw permitted (
          ap (λ st. after_write t s (nodes.write_stat s.world info.n st))
            (change_stat-NoChange stat t.stat h))
