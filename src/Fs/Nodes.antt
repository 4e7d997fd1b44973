-- ===== src/Fs/Nodes.antt =====
-- The interfaces of fs/filesystem.go that the server is a client of: FSNode, File, Dir and ModDir,
-- and the function members of FS. A node is a handle of type N, and what it refers to lives in a
-- world of type W, which the calls pass on.
use go9p.Base.{ℕ, List, Option, Bool}
use go9p.Proto.Stat.{Stat}
use go9p.Fs.Result.{Text, Result}

-- What the type assertions on a node find: a Dir that is a ModDir, another Dir, a File, or none.
pub data Kind : Type 0 where
  mod_dir plain_dir file other : Kind

pub record Nodes (W N : Type 0) : Type 0 where
  pub kind : N → Kind
  pub stat : W → N → Stat
  pub write_stat : W → N → Stat → Result (Unit {0}) × W
  pub parent : W → N → Option N
  -- `Children()[name]`, and the values of the map in the order of a `range` over it
  pub child : W → N → Text → Option N
  pub children : W → N → List N
  pub add_child : W → N → N → Result (Unit {0}) × W
  -- fid, offset, count or data
  pub open_file : W → N → ℕ → ℕ → Result (Unit {0}) × W
  pub read_file : W → N → ℕ → ℕ → ℕ → Result (List ℕ) × W
  pub write_file : W → N → ℕ → ℕ → List ℕ → Result ℕ × W
  pub close_file : W → N → ℕ → Result (Unit {0}) × W
  pub full_path : W → N → Text

-- `(node, error)`, where the node may be nil.
abbrev pub Created : Type 0 → Type 0
Created N = Result (Option N)

-- FS: the root and the optional hooks.
pub record FileSystem (W N : Type 0) : Type 0 where
  pub root : N
  pub create_file : Option (W → N → Text → Text → ℕ → ℕ → Created N × W)
  pub create_dir : Option (W → N → Text → Text → ℕ → ℕ → Created N × W)
  pub walk_fail : Option (W → N → Text → Created N × W)
  pub remove_file : Option (W → N → Result (Unit {0}) × W)
  pub ignore_perms : Bool
  -- `authFunc != nil`
  pub has_auth : Bool
  -- the stream file that Auth makes for a connection to authenticate on
  pub auth_file : W → N × W
