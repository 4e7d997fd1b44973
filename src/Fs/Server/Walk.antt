-- ===== src/Fs/Server/Walk.antt =====
-- Walk of fs/server.go.
pub mod Resolve
pub mod Trust
use go9p.Base.{
  ℕ, zero, suc, ◌%◌, ◌^◌, List, [], ◌∷◌, ◌++◌, length, Option, none, some, if◌then◌else◌, bytes,
  same_text,
}
use go9p.Proto.Qid.{Qid}
use go9p.Proto.Header.Types.{rwalk_type}
use go9p.Proto.Messages.Walk.{TWalk}
use go9p.Proto.Call.{rwalk}
use go9p.Fs.Result.{Text, Result, ok, err, panic}
use go9p.Fs.Nodes.{Nodes, FileSystem, Kind, mod_dir, plain_dir, file, other, Created}
use go9p.Fs.Server.Conn.{FidInfo, derive_info, store, Reply, reply, crash, error_reply, State, Step}

-- Where the loop ends: at a node with the qids of the way, with an error, or in a panic.
pub data Walked (N : Type 0) : Type 0 where
  arrived : N → List Qid → Walked N
  stopped : Text → Walked N
  broke : Walked N

module _ {W N : Type 0} (nodes : Nodes W N) (fs : FileSystem W N) where
  added : N → Result (Unit {0}) × W → (Result N) × W
  added f (ok _, w) = (ok f, w)
  added f (err e, w) = (err e, w)
  added f (panic, w) = (panic, w)

  -- What WalkFail found is added to the directory, if that is a ModDir.
  add_found : N → Kind → Created N × W → (Result N) × W
  unfolding added
  add_found dir k (err e, w) = (err e, w)
  add_found dir k (panic, w) = (panic, w)
  add_found dir k (ok none, w) = (err (bytes "No such path"), w)
  add_found dir mod_dir (ok (some f), w) = added f (nodes.add_child w dir f)
  add_found dir _ (ok (some f), w) =
      (err (nodes.full_path w dir ++ bytes " does not support modification."), w)

  missing : Option (W → N → Text → Created N × W) → N → Kind → Text → W → (Result N) × W
  unfolding add_found
  missing none dir k name w = (err (bytes "No such path"), w)
  missing (some walk_fail) dir k name w = add_found dir k (walk_fail w dir name)

  found_child : Option N → N → Kind → Text → W → (Result N) × W
  unfolding missing
  found_child (some n) dir k name w = (ok n, w)
  found_child none dir k name w = missing fs.walk_fail dir k name w

  find_child : N → Kind → Text → W → (Result N) × W
  unfolding found_child
  find_child dir k name w = found_child (nodes.child w dir name) dir k name w

  -- One element of the path, from a node of either kind.
  walk_one : N → Kind → Text → W → (Result N) × W
  unfolding find_child
  walk_one n mod_dir name w = find_child n mod_dir name w
  walk_one n plain_dir name w = find_child n plain_dir name w
  walk_one n file name w = (err (bytes "No such path"), w)
  walk_one n other name w = (err (bytes "No such path"), w)

  walk_on : (N → List Qid → W → Walked N × W) → List Qid → Result N × W → Walked N × W
  walk_on again qids (ok n, w) = again n (qids ++ ((nodes.stat w n).qid ∷ [])) w
  walk_on again qids (err e, w) = (stopped e, w)
  walk_on again qids (panic, w) = (broke, w)

  -- `for i := 0; i < int(t.Nwname); i++`; indexing Wname past its end panics.
  unfoldable pub walk_loop : ℕ → List Text → N → List Qid → W → Walked N × W
  unfolding walk_on walk_one
  walk_loop zero names n qids w = (arrived n qids, w)
  walk_loop (suc k) [] n qids w = (broke, w)
  walk_loop (suc k) (name ∷ names) n qids w =
      walk_on (walk_loop k names) qids (walk_one n (nodes.kind n) name w)

  walk_reply : TWalk → ℕ → List Qid → Reply
  walk_reply t count qids = reply (
      rwalk (record {
        header = record { type = rwalk_type; tag = t.header.tag };
        nwqid = count;
        wqid = qids;
      }))

  -- A fid for `n` under newfid, derived from the fid that the walk began at.
  arrive : TWalk → FidInfo N → N → List Qid → State W N → Step W N
  unfolding walk_reply
  arrive t info n qids s = (
    walk_reply t (length qids % 2 ^ 16) qids,
    record s { conn = store s.conn t.newfid (derive_info info n) },
  )

  walk_end : TWalk → FidInfo N → State W N → Walked N × W → Step W N
  unfolding arrive
  walk_end t info s (arrived n qids, w) = arrive t info n qids (record s { world = w })
  walk_end t info s (stopped e, w) = (error_reply t.header.tag e, record s { world = w })
  walk_end t info s (broke, w) = (crash, record s { world = w })

  walk_path : TWalk → FidInfo N → State W N → Step W N
  unfolding walk_end
  walk_path t info s = walk_end t info s (walk_loop t.nwname t.wname info.n [] s.world)

  walk_up : TWalk → FidInfo N → Option N → State W N → Step W N
  unfolding arrive walk_reply
  walk_up t info none s = (walk_reply t 0 [], s)
  walk_up t info (some parent) s = arrive t info parent ((nodes.stat s.world parent).qid ∷ []) s

  -- `..` and `.` are read as the first element of the path only, and then alone.
  walk_dots : TWalk → FidInfo N → Text → State W N → Step W N
  unfolding walk_up walk_path
  walk_dots t info first s =
      if same_text first (bytes "..")
      then walk_up t info (nodes.parent s.world info.n) s
      else if same_text first (bytes ".")
      then arrive t info info.n ((nodes.stat s.world info.n).qid ∷ []) s
      else walk_path t info s

  walk_first : TWalk → FidInfo N → ℕ → List Text → State W N → Step W N
  unfolding walk_dots
  walk_first t info zero names s = walk_path t info s
  walk_first t info (suc k) [] s = (crash, s)
  walk_first t info (suc k) (first ∷ names) s = walk_dots t info first s

  walk_info : TWalk → Option (FidInfo N) → State W N → Step W N
  unfolding walk_first
  walk_info t none s = (error_reply t.header.tag (bytes "Bad Fid."), s)
  walk_info t (some info) s = walk_first t info t.nwname t.wname s

  unfoldable pub walk : TWalk → State W N → Step W N
  unfolding walk_info
  walk t s = walk_info t (s.conn.fids t.fid) s
