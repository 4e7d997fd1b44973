-- ===== src/Fs/Server/Walk/Trust.antt =====
-- Walk hands the user of a fid on to the new one.
use go9p.Base.{ℕ, zero, suc, List, [], ◌∷◌, Option, none, some, bytes, same_text}
use go9p.Proto.Qid.{Qid}
use go9p.Proto.Messages.Walk.{TWalk}
use go9p.Fs.Result.{Text}
use go9p.Fs.Nodes.{Nodes, FileSystem}
use go9p.Fs.Server.Conn.{FidInfo, derive_info, State}
use go9p.Fs.Server.Conn.Trust.{
  Trusted, TrustedIfBound, AllTrusted, store-AllTrusted, derive-Trusted, Keeps, if-Keeps,
}
use go9p.Fs.Server.Walk.{
  Walked, arrived, stopped, broke, walk, walk_info, walk_first, walk_dots, walk_up, walk_path,
  walk_end, arrive,
}

module _ {W N : Type 0} (nodes : Nodes W N) (fs : FileSystem W N) (Proved : Text → Type 0) where
  arrive-Keeps :
      (t : TWalk) (info : FidInfo N) (n : N) (qids : List Qid) (s : State W N)
      → AllTrusted Proved s.conn
      → Trusted Proved info
      → Keeps Proved (arrive nodes fs t info n qids s)
  unfolding arrive
  arrive-Keeps t info n qids s h i = record {
    kept =
        store-AllTrusted Proved s.conn t.newfid (derive_info info n) h
          (derive-Trusted Proved info n i);
  }

  walk_end-Keeps :
      (t : TWalk) (info : FidInfo N) (s : State W N) (e : Walked N × W)
      → AllTrusted Proved s.conn
      → Trusted Proved info
      → Keeps Proved (walk_end nodes fs t info s e)
  unfolding walk_end
  walk_end-Keeps t info s (arrived n qids, w) h i = arrive-Keeps t info n qids _ h i
  walk_end-Keeps t info s (stopped e, w) h i = record { kept = h }
  walk_end-Keeps t info s (broke, w) h i = record { kept = h }

  walk_path-Keeps :
      (t : TWalk) (info : FidInfo N) (s : State W N)
      → AllTrusted Proved s.conn
      → Trusted Proved info
      → Keeps Proved (walk_path nodes fs t info s)
  unfolding walk_path
  walk_path-Keeps t info s h i = walk_end-Keeps t info s _ h i

  walk_up-Keeps :
      (t : TWalk) (info : FidInfo N) (parent : Option N) (s : State W N)
      → AllTrusted Proved s.conn
      → Trusted Proved info
      → Keeps Proved (walk_up nodes fs t info parent s)
  unfolding walk_up
  walk_up-Keeps t info none s h i = record { kept = h }
  walk_up-Keeps t info (some parent) s h i =
      arrive-Keeps t info parent ((nodes.stat s.world parent).qid ∷ []) s h i

  walk_first-Keeps :
      (t : TWalk) (info : FidInfo N) (k : ℕ) (names : List Text) (s : State W N)
      → AllTrusted Proved s.conn
      → Trusted Proved info
      → Keeps Proved (walk_first nodes fs t info k names s)
  unfolding walk_first walk_dots
  walk_first-Keeps t info zero names s h i = walk_path-Keeps t info s h i
  walk_first-Keeps t info (suc k) [] s h i = record { kept = h }
  walk_first-Keeps t info (suc k) (first ∷ names) s h i =
      if-Keeps Proved (same_text first (bytes "..")) _ _
        (walk_up-Keeps t info (nodes.parent s.world info.n) s h i)
        (if-Keeps Proved (same_text first (bytes ".")) _ _
          (arrive-Keeps t info info.n ((nodes.stat s.world info.n).qid ∷ []) s h i)
          (walk_path-Keeps t info s h i))

  walk_info-Keeps :
      (t : TWalk) (o : Option (FidInfo N)) (s : State W N)
      → AllTrusted Proved s.conn
      → TrustedIfBound Proved o
      → Keeps Proved (walk_info nodes fs t o s)
  unfolding walk_info
  walk_info-Keeps t none s h i = record { kept = h }
  walk_info-Keeps t (some info) s h i = walk_first-Keeps t info t.nwname t.wname s h i

  pub walk-Keeps :
      (t : TWalk) (s : State W N) → AllTrusted Proved s.conn → Keeps Proved (walk nodes fs t s)
  unfolding walk
  walk-Keeps t s h = walk_info-Keeps t (s.conn.fids t.fid) s h (h t.fid)
