-- ===== src/Tests/Making.antt =====
-- A client that makes a directory and reads it at once.
use go9p.Base.{◌^◌, ◌+◌, some, bytes, ◌≡◌, refl}
use go9p.Proto.Header.Types.{tcreate_type}
use go9p.Proto.Messages.Create.{TCreate}
use go9p.Fs.Permissions.{open_permission}
use go9p.Fs.Result.{ok}
use go9p.Fs.Nodes.{FileSystem}
use go9p.Fs.Server.Conn.{crash, store, new_fid_info}
use go9p.Fs.Server.Files.{create, may_open}
use go9p.Fs.Server.Files.Making.{Makes}
use go9p.Fs.Server.Data.{read}
use go9p.Fs.Server.Data.CreatedDir.{read-create-crash}
use go9p.Tests.Tree.{Place, root, places, fs, attached, at_root, read_at}

-- The hook gives the root itself for the new directory.
abbrev making_fs : FileSystem Unit Place
making_fs = record fs { create_dir = some (λ w dir user name perm mode. (ok (some root), w)) }

abbrev make_dir : TCreate
make_dir = record {
  header = record { type = tcreate_type; tag = 4 };
  fid = 1;
  name = bytes "src";
  perm = 2 ^ 31 + 0x1ED;
  mode = 0;
}

make_dir-Makes : Makes places making_fs make_dir attached at_root root tt
unfolding store new_fid_info open_permission may_open
make_dir-Makes = record {
  hook = λ w dir user name perm mode. (ok (some root), w);
  bound = refl;
  in_dir = refl;
  allowed = refl;
  for_dir = refl;
  hooked = refl;
  made = refl;
  is_dir = refl;
}

read-create-crash_example :
    (read places (read_at 0 100) (create places making_fs make_dir attached).1).0 ≡ crash
read-create-crash_example =
    read-create-crash places making_fs make_dir (read_at 0 100) attached at_root root tt
      make_dir-Makes refl refl
