-- ===== src/Fs/Server/Data/CreatedDir.antt =====
-- A read of a directory that the fid was created on.
use go9p.Base.{some, if◌then◌else◌, ◌≡◌, refl, ap, ◌∙◌, ==_refl}
use go9p.Proto.Messages.Create.{TCreate}
use go9p.Proto.Messages.Read.{TRead}
use go9p.Fs.Permissions.{oread}
use go9p.Fs.Nodes.{Nodes, FileSystem, mod_dir}
use go9p.Fs.Server.Conn.{FidInfo, nothing, store, crash, State}
use go9p.Fs.Server.Files.{create}
use go9p.Fs.Server.Files.Making.{created_fid, Makes, after_create, create-Makes}
use go9p.Fs.Server.Data.{read, read_info, read_node, clamp_count}

module _ {W N : Type 0} (nodes : Nodes W N) (fs : FileSystem W N) where
  read_info-crash :
      (r : TRead) (info : FidInfo N) (s : State W N)
      → nodes.kind info.n ≡ mod_dir
      → info.open_mode ≡ oread
      → info.extra ≡ nothing
      → (read_info nodes r (some info) s).0 ≡ crash
  unfolding read_info read_node
  read_info-crash r info s dir mode bare = rw (mode, dir, bare) refl

  -- When a client creates a directory and the fid is open for reading, a read of that fid panics, and
  -- takes the server down.
  pub read-create-crash :
      (t : TCreate) (r : TRead) (s : State W N) (info : FidInfo N) (n : N) (w : W)
      → Makes nodes fs t s info n w
      → t.mode ≡ oread
      → r.fid ≡ t.fid
      → (read nodes r (create nodes fs t s).1).0 ≡ crash
  unfolding read store
  read-create-crash t r s info n w m mode same =
      let made = after_create nodes fs t info n w s in
      ap (λ s. (read nodes r s).0) (create-Makes nodes fs t s info n w m)
      ∙ ap (λ k. (read_info nodes (clamp_count nodes r made.conn.msize) (made.conn.fids k) made).0)
          same
      ∙ ap
          (λ b.
            (read_info nodes (clamp_count nodes r made.conn.msize)
              (if b then some (created_fid nodes fs t info n) else s.conn.fids t.fid) made).0)
          (==_refl t.fid)
      ∙ read_info-crash (clamp_count nodes r made.conn.msize) (created_fid nodes fs t info n) made
          m.is_dir mode refl
