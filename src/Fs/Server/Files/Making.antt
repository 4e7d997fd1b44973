-- ===== src/Fs/Server/Files/Making.antt =====
-- A Create that makes a directory.
use go9p.Base.{ℕ, some, true, false, ◌==◌, bit_and, ◌≡◌, refl, ap, ◌∙◌}
use go9p.Proto.Messages.Create.{TCreate}
use go9p.Fs.Permissions.{owrite}
use go9p.Fs.Result.{Text, ok}
use go9p.Fs.Nodes.{Nodes, FileSystem, mod_dir, Created}
use go9p.Fs.Server.Conn.{FidInfo, nothing, derive_info, store, State}
use go9p.Fs.Server.Files.{
  dmdir, may_open, create, create_info, create_node, create_in_dir, create_by, created, create_open,
  create_done,
}

module _ {W N : Type 0} (nodes : Nodes W N) (fs : FileSystem W N) where
  -- The fid after the create: at the new node, open in the mode of the call, with no listing.
  abbrev pub created_fid : TCreate → FidInfo N → N → FidInfo N
  created_fid t info n = record {
    n = n;
    open_mode = t.mode;
    open_offset = 0;
    uname = info.uname;
    extra = nothing;
  }

  -- The hook makes the directory `n` in the directory of `info`, whose user may write there.
  pub record Makes (t : TCreate) (s : State W N) (info : FidInfo N) (n : N) (w : W) : Type 0 where
    pub hook : W → N → Text → Text → ℕ → ℕ → Created N × W
    pub bound : s.conn.fids t.fid ≡ some info
    pub in_dir : nodes.kind info.n ≡ mod_dir
    pub allowed : may_open nodes fs s.world info owrite ≡ true
    pub for_dir : (bit_and t.perm dmdir == 0) ≡ false
    pub hooked : fs.create_dir ≡ some hook
    pub made : hook s.world info.n info.uname t.name t.perm t.mode ≡ (ok (some n), w)
    pub is_dir : nodes.kind n ≡ mod_dir

  abbrev pub after_create : TCreate → FidInfo N → N → W → State W N → State W N
  after_create t info n w s = record { conn = store s.conn t.fid (created_fid t info n); world = w }

  pub create-Makes :
      (t : TCreate) (s : State W N) (info : FidInfo N) (n : N) (w : W)
      → Makes t s info n w
      → (create nodes fs t s).1 ≡ after_create t info n w s
  unfolding create create_info create_node create_in_dir create_by created create_open create_done
      derive_info
  create-Makes t s info n w m =
      ap (λ o. (create_info nodes fs t o s).1) m.bound
      ∙ rw (m.allowed, m.in_dir, m.for_dir, m.hooked, m.made, m.is_dir) refl
