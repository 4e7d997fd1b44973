-- ===== src/Fs/Static/Create.antt =====
-- NewQid and NewStat of fs/filesystem.go, and CreateStaticFile and CreateStaticDir of fs/static.go.
pub mod Fresh
use go9p.Base.{ℕ, ◌+◌, ◌/◌, ◌%◌, ◌^◌, [], none, some, Option}
use go9p.Proto.Qid.{Qid}
use go9p.Proto.Stat.{Stat}
use go9p.Fs.Result.{Text, Result, ok, err, panic}
use go9p.Fs.Nodes.{Created}
use go9p.Fs.Static.File.{new_static_file}
use go9p.Fs.Static.Dir.{Object, static_file, static_dir, Heap, new_static_dir, put, add_child}

-- The heap, the address of the next allocation, and `uid` of FS.
pub record World : Type 0 where
  pub heap : Heap
  pub next : ℕ
  pub uid : ℕ

-- NewQid: the uid is a counter on uint64.
unfoldable pub new_qid : World → ℕ → Qid × World
new_qid w mode = (
  record { qtype = mode / 2 ^ 24 % 2 ^ 8; vers = 0; uid = w.uid },
  record w { uid = (w.uid + 1) % 2 ^ 64 },
)

-- NewStat at the time `now`, in seconds.
unfoldable pub new_stat : ℕ → World → Text → Text → Text → ℕ → Stat × World
unfolding new_qid
new_stat now w name uid gid mode = (
  record {
    type = 0;
    dev = 0;
    qid = (new_qid w mode).0;
    mode = mode;
    atime = now % 2 ^ 32;
    mtime = now % 2 ^ 32;
    length = 0;
    name = name;
    uid = uid;
    gid = gid;
    muid = uid;
  },
  (new_qid w mode).1,
)

placed : World → ℕ → Result (Unit {0}) × Heap → Created ℕ × World
placed w n (ok _, h) = (ok (some n), record w { heap = h })
placed w n (err e, h) = (err e, record w { heap = h })
placed w n (panic, h) = (panic, record w { heap = h })

-- A new object, and AddChild of it to the directory `d`.
place : World → ℕ → Object → Created ℕ × World
unfolding placed
place w d o =
    placed (record w { next = w.next + 1 }) w.next (add_child (put w.next o w.heap) d w.next)

-- The parent is a StaticDir, so that it supports modification.
unfoldable pub create_static_file : ℕ → World → ℕ → Text → Text → ℕ → Created ℕ × World
unfolding place new_stat
create_static_file now w d user name perm =
    let (stat, w') = new_stat now w name user user perm in
    place w' d (static_file (new_static_file stat []) none)

unfoldable pub create_static_dir : ℕ → World → ℕ → Text → Text → ℕ → Created ℕ × World
unfolding place new_stat
create_static_dir now w d user name perm =
    let (stat, w') = new_stat now w name user user perm in
    place w' d (static_dir (new_static_dir stat))
