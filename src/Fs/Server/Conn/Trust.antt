-- ===== src/Fs/Server/Conn/Trust.antt =====
-- The users that the fids of a connection act for.
use go9p.Base.{ℕ, [], Option, none, some, Bool, true, false, ◌==◌, if◌then◌else◌, ◌≡◌, ◌⊎◌}
use go9p.Fs.Result.{Text}
use go9p.Fs.Server.Conn.{
  Extra, nothing, listing, auth_error, auth_name, FidInfo, derive_info, Conn, store, delete, Step,
}

module _ {N : Type 0} (Proved : Text → Type 0) where
  -- What authentication left on a fid is a name that was proved.
  abbrev pub ProvedBy : Extra N → Type 0
  ProvedBy (auth_name name) = Proved name
  ProvedBy nothing = Unit
  ProvedBy (listing _) = Unit
  ProvedBy (auth_error _) = Unit

  -- The fid acts for a user that was proved, or for none: then it came from an auth fid.
  pub record Trusted (info : FidInfo N) : Type 0 where
    pub user : (info.uname ≡ []) ⊎ Proved info.uname
    pub proof : ProvedBy info.extra

  abbrev pub TrustedIfBound : Option (FidInfo N) → Type 0
  TrustedIfBound none = Unit
  TrustedIfBound (some info) = Trusted info

  -- Every fid of the connection is.
  abbrev pub AllTrusted : Conn N → Type 0
  AllTrusted c = (k : ℕ) → TrustedIfBound (c.fids k)

  either :
      (b : Bool) (x y : Option (FidInfo N))
      → TrustedIfBound x
      → TrustedIfBound y
      → TrustedIfBound (if b then x else y)
  either true x y hx hy = hx
  either false x y hx hy = hy

  pub store-AllTrusted :
      (c : Conn N) (fid : ℕ) (info : FidInfo N)
      → AllTrusted c
      → Trusted info
      → AllTrusted (store c fid info)
  unfolding store
  store-AllTrusted c fid info h t k = either (k == fid) (some info) (c.fids k) t (h k)

  pub delete-AllTrusted : (c : Conn N) (fid : ℕ) → AllTrusted c → AllTrusted (delete c fid)
  unfolding delete
  delete-AllTrusted c fid h k = either (k == fid) none (c.fids k) tt (h k)

  pub derive-Trusted : (info : FidInfo N) (n : N) → Trusted info → Trusted (derive_info info n)
  unfolding derive_info
  derive-Trusted info n t = record { user = t.user; proof = tt }

  -- The step leaves only such fids.
  pub record Keeps {W : Type 0} (r : Step W N) : Type 0 where
    pub kept : AllTrusted r.1.conn

  pub if-Keeps :
      {W : Type 0} (b : Bool) (x y : Step W N) → Keeps x → Keeps y → Keeps (if b then x else y)
  if-Keeps true x y hx hy = hx
  if-Keeps false x y hx hy = hy
