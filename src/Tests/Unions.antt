-- ===== src/Tests/Unions.antt =====
-- The mount table at work.
use go9p.Base.{[], ◌∷◌, some, true, false, ◌≡◌, refl, bytes}
use go9p.Union.{
  MountEntry, MountTable, a_client, a_dir, mount, unmount_client, creating_mount, after_old,
  is_client,
}
use go9p.Union.Mounts.{unmount_client-mount, Chosen, creating_mount-Chosen}

abbrev lib_bind : MountEntry
lib_bind = record {
  target = a_dir 4 (bytes "/lib");
  mount_point = bytes "/bin";
  replace = false;
  create = false;
}

abbrev tmp_mount : MountEntry
tmp_mount = record {
  target = a_client 7;
  mount_point = bytes "/tmp";
  replace = true;
  create = true;
}

abbrev two_mounts : MountTable
two_mounts = lib_bind ∷ (tmp_mount ∷ [])

unmount_client-mount_example :
    unmount_client 9 (bytes "/tmp") (mount 9 (bytes "/tmp") after_old true two_mounts) ≡ two_mounts
unfolding is_client
unmount_client-mount_example =
    unmount_client-mount 9 (bytes "/tmp") after_old true two_mounts (refl, (refl, tt))

creating_mount-Chosen_example :
    (creating_mount lib_bind (bytes "/tmp") two_mounts ≡ some tmp_mount
      → Chosen lib_bind (bytes "/tmp") two_mounts tmp_mount)
    × (Chosen lib_bind (bytes "/tmp") two_mounts tmp_mount
        → creating_mount lib_bind (bytes "/tmp") two_mounts ≡ some tmp_mount)
creating_mount-Chosen_example = creating_mount-Chosen lib_bind (bytes "/tmp") two_mounts tmp_mount
