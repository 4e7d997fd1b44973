-- ===== src/Union.antt =====
-- union/union.go: the mount table of a union file system, and the mount that a new file goes to.
pub mod Mounts
use go9p.Base.{
  ℕ, List, [], ◌∷◌, ◌++◌, Option, none, some, Bool, true, false, not, ◌&&◌, ◌||◌, ◌==◌,
  if◌then◌else◌, same_text,
}
use go9p.Fs.Result.{Text}

pub data MountOption : Type 0 where
  replace_old before_old after_old : MountOption

-- What is mounted: a client, or a directory of the union with its path. Clients and directories are
-- pointers, which are numbers here. Nothing mounts a file.
pub data Mounted : Type 0 where
  a_client : ℕ → Mounted
  a_dir : ℕ → Text → Mounted

pub record MountEntry : Type 0 where
  pub target : Mounted
  pub mount_point : Text
  pub replace : Bool
  pub create : Bool

abbrev pub MountTable : Type 0
MountTable = List MountEntry

is_replace : MountOption → Bool
is_replace replace_old = true
is_replace before_old = false
is_replace after_old = false

-- The end of Mount and of Bind.
unfoldable pub insert_entry : MountOption → MountEntry → MountTable → MountTable
insert_entry replace_old me table = me ∷ table
insert_entry before_old me table = me ∷ table
insert_entry after_old me table = table ++ (me ∷ [])

-- Mount of a client.
unfoldable pub mount : ℕ → Text → MountOption → Bool → MountTable → MountTable
unfolding is_replace insert_entry
mount c old option create table =
    insert_entry option
      (record {
        target = a_client c;
        mount_point = old;
        replace = is_replace option;
        create = create;
      })
      table

-- Bind of a directory that findDir has found.
unfoldable pub bind : ℕ → Text → Text → MountOption → Bool → MountTable → MountTable
unfolding is_replace insert_entry
bind dir path old option create table =
    insert_entry option
      (record {
        target = a_dir dir path;
        mount_point = old;
        replace = is_replace option;
        create = create;
      })
      table

with_client : Mounted → List ℕ → List ℕ
with_client (a_client c) clients = c ∷ clients
with_client (a_dir d path) clients = clients

-- The loop of UnmountPoint: the clients that it returns, and the table that stays.
unfoldable pub unmount_point : Text → MountTable → List ℕ × MountTable
unfolding with_client
unmount_point old [] = ([], [])
unmount_point old (me ∷ table) =
    let (clients, rest) = unmount_point old table in
    if not (same_text me.mount_point old)
    then (clients, me ∷ rest)
    else (with_client me.target clients, rest)

unfoldable pub is_client : ℕ → Mounted → Bool
is_client c (a_client j) = j == c
is_client c (a_dir d path) = false

is_bind_of : Text → Mounted → Bool
is_bind_of path (a_client c) = false
is_bind_of path (a_dir d p) = same_text p path

-- The loops of UnmountClient and UnmountBind: the entries that do not pass the test stay.
remove_entries : (MountEntry → Bool) → MountTable → MountTable
remove_entries gone [] = []
remove_entries gone (me ∷ table) =
    let rest = remove_entries gone table in if gone me then rest else me ∷ rest

unfoldable pub unmount_client : ℕ → Text → MountTable → MountTable
unfolding remove_entries is_client
unmount_client c old table =
    remove_entries (λ me. same_text me.mount_point old && is_client c me.target) table

unfoldable pub unmount_bind : Text → Text → MountTable → MountTable
unfolding remove_entries is_bind_of
unmount_bind path old table =
    remove_entries (λ me. same_text me.mount_point old && is_bind_of path me.target) table

-- The loop of CreateFile and CreateDir that looks for the mount that permits creation at a path.
unfoldable pub find_create : Text → MountTable → Option MountEntry
find_create path [] = none
find_create path (me ∷ table) =
    let rest = find_create path table in
    if me.create && same_text path me.mount_point
    then some me
    else if me.replace
    then none
    else rest

-- CreateFile and CreateDir try the mount of the directory itself first; `none` is the error that
-- creation is not permitted.
unfoldable pub creating_mount : MountEntry → Text → MountTable → Option MountEntry
creating_mount own path table = if own.create then some own else find_create path table
