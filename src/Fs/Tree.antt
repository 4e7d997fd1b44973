-- ===== src/Fs/Tree.antt =====
-- fs/filesystem.go: FullPath, BaseNode, BaseFile, RMFile, and NewFS with its options.
pub mod Paths
use go9p.Base.{
  ℕ, zero, suc, List, [], ◌∷◌, ◌++◌, Option, none, some, Bool, true, false, ◌==◌, if◌then◌else◌,
  bytes,
}
use go9p.Proto.Stat.{Stat}
use go9p.Fs.Result.{Text, Result, ok, err, panic}
use go9p.Fs.Nodes.{Nodes, Created, FileSystem, Kind, mod_dir}

-- strings.Replace(s, "//", "/", -1), from the left.
unfoldable pub replace_slashes : Text → Text
replace_slashes [] = []
replace_slashes (b ∷ []) = b ∷ []
replace_slashes (b ∷ (c ∷ bs)) =
    let kept = replace_slashes (c ∷ bs) in
    let shortened = replace_slashes bs in
    if b == 47 then (if c == 47 then 47 ∷ shortened else b ∷ kept) else b ∷ kept

below : Text → Option Text → Option Text
below name none = none
below name (some path) = some (replace_slashes (path ++ (47 ∷ name)))

module _ {W N : Type 0} (nodes : Nodes W N) where
  path_to : W → N → (N → Option Text) → Option N → Option Text
  unfolding below
  path_to w n up none = some (nodes.stat w n).name
  path_to w n up (some parent) = below (nodes.stat w n).name (up parent)

  -- FullPath of a node that is not nil: a call for each parent, as many as the fuel allows.
  unfoldable pub full_path : ℕ → W → N → Option Text
  unfolding path_to
  full_path zero w n = none
  full_path (suc fuel) w n = path_to w n (full_path fuel w) (nodes.parent w n)

  -- `delete_child` is DeleteChild of a ModDir.
  module _ (delete_child : W → N → Text → Result (Unit {0}) × W) where
    remove_from : W → N → N → Kind → Result (Unit {0}) × W
    remove_from w n parent mod_dir = delete_child w parent (nodes.stat w n).name
    remove_from w n parent _ =
        (err (nodes.full_path w parent ++ bytes " does not support modification."), w)

    remove_below : W → N → Option N → Result (Unit {0}) × W
    unfolding remove_from
    remove_below w n none = (err (bytes " does not support modification."), w)
    remove_below w n (some parent) = remove_from w n parent (nodes.kind parent)

    -- RMFile
    unfoldable pub rm_file : W → N → Result (Unit {0}) × W
    unfolding remove_below
    rm_file w n = remove_below w n (nodes.parent w n)

-- A BaseNode, whose attributes are read only, and whose SetParent does nothing.
pub record BaseNode (N : Type 0) : Type 0 where
  pub node_stat : Stat
  pub node_parent : Option N

unfoldable pub base_node_write_stat : {N : Type 0} → BaseNode N → Stat → Result (Unit {0})
base_node_write_stat n st = err (bytes "Attributes are read only")

unfoldable pub base_node_set_parent : {N : Type 0} → BaseNode N → Option N → BaseNode N
base_node_set_parent n d = n

pub record BaseFile (N : Type 0) : Type 0 where
  pub f_stat : Stat
  pub parent : Option N

module _ {N : Type 0} where
  unfoldable pub new_base_file : Stat → BaseFile N
  new_base_file st = record { f_stat = st; parent = none }

  unfoldable pub base_file_write_stat : BaseFile N → Stat → BaseFile N
  base_file_write_stat f st = record f { f_stat = st }

  unfoldable pub base_file_set_parent : BaseFile N → Option N → BaseFile N
  base_file_set_parent f p = record f { parent = p }

  unfoldable pub base_file_read : BaseFile N → ℕ → ℕ → ℕ → Result (List ℕ)
  base_file_read f fid offset count = ok []

  unfoldable pub base_file_write : BaseFile N → ℕ → ℕ → List ℕ → Result ℕ
  base_file_write f fid offset source = err (bytes "Cannot write to file.")

-- The options of NewFS. WithAuth is given the file that Auth makes for a connection.
pub data FsOption (W N : Type 0) : Type 0 where
  with_create_file : (W → N → Text → Text → ℕ → ℕ → Created N × W) → FsOption W N
  with_create_dir : (W → N → Text → Text → ℕ → ℕ → Created N × W) → FsOption W N
  with_remove_file : (W → N → Result (Unit {0}) × W) → FsOption W N
  with_walk_fail_handler : (W → N → Text → Created N × W) → FsOption W N
  with_auth : (W → N × W) → FsOption W N
  ignore_permissions : FsOption W N

module _ {W N : Type 0} where
  unfoldable pub apply_option : FsOption W N → FileSystem W N → FileSystem W N
  apply_option (with_create_file f) fs = record fs { create_file = some f }
  apply_option (with_create_dir f) fs = record fs { create_dir = some f }
  apply_option (with_remove_file f) fs = record fs { remove_file = some f }
  apply_option (with_walk_fail_handler f) fs = record fs { walk_fail = some f }
  apply_option (with_auth auth_file) fs = record fs { has_auth = true; auth_file = auth_file }
  apply_option ignore_permissions fs = record fs { ignore_perms = true }

  unfoldable pub apply_options : List (FsOption W N) → FileSystem W N → FileSystem W N
  unfolding apply_option
  apply_options [] fs = fs
  apply_options (o ∷ os) fs = apply_options os (apply_option o fs)

  -- NewFS, given the directory that it makes for the root.
  unfoldable pub new_fs : N → List (FsOption W N) → FileSystem W N
  unfolding apply_options
  new_fs root options = apply_options options (record {
    root = root;
    create_file = none;
    create_dir = none;
    walk_fail = none;
    remove_file = none;
    ignore_perms = false;
    has_auth = false;
    auth_file = λ w. (root, w);
  })
