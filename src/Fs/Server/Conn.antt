-- ===== src/Fs/Server/Conn.antt =====
-- The connection of fs/server.go: its table of fids, and what a handler returns.
pub mod Trust
use go9p.Base.{
  true, false, ◌+◌, ℕ, ◌+◌, ◌*◌, ◌^◌, List, Option, none, some, Bool, ◌==◌, if◌then◌else◌,
}
use go9p.Proto.Header.Types.{rerror_type}
use go9p.Proto.Call.{rerror}
pub use go9p.Serve.{Reply, reply, fail, crash}
use go9p.Fs.Permissions.{omode_none}
use go9p.Fs.Result.{Text}

-- The `extra` field: nil, the children listed by Open, or what the authentication left.
pub data Extra (N : Type 0) : Type 0 where
  nothing : Extra N
  listing : List N → Extra N
  auth_error : Text → Extra N
  auth_name : Text → Extra N

pub record FidInfo (N : Type 0) : Type 0 where
  pub n : N
  pub open_mode : ℕ
  pub open_offset : ℕ
  pub uname : Text
  pub extra : Extra N

unfoldable pub new_fid_info : {N : Type 0} → Text → N → FidInfo N
new_fid_info uname n = record {
  n = n;
  open_mode = omode_none;
  open_offset = 0;
  uname = uname;
  extra = nothing;
}

unfoldable pub derive_info : {N : Type 0} → FidInfo N → N → FidInfo N
derive_info i n = record {
  n = n;
  open_mode = omode_none;
  open_offset = 0;
  uname = i.uname;
  extra = nothing;
}

-- `tags sync.Map`: the context of each tag that is being handled. Contexts are numbered in the order
-- in which they are made.
pub record Tags : Type 0 where
  pub contexts : ℕ → Option ℕ
  pub cancelled : ℕ → Bool
  pub next : ℕ

-- TagContext: the context of the tag, or a new one.
unfoldable pub tag_context : ℕ → Tags → ℕ × Tags
tag_context tag c = elim (c.contexts tag) [
  | some ctx ↦ (ctx, c)
  | none ↦ (
    c.next,
    record c { contexts = λ k. if k == tag then some c.next else c.contexts k; next = c.next + 1 },
  )
]

-- DropContext: the tag is free again, and its context is cancelled.
unfoldable pub drop_context : ℕ → Tags → Tags
drop_context tag c = elim (c.contexts tag) [
  | none ↦ c
  | some ctx ↦ record c {
    contexts = λ k. if k == tag then none else c.contexts k;
    cancelled = λ k. if k == ctx then true else c.cancelled k;
  }
]

-- `fids sync.Map`; `msize` is 0 until Version.
pub record Conn (N : Type 0) : Type 0 where
  pub conn_id : ℕ
  pub fids : ℕ → Option (FidInfo N)
  pub msize : ℕ
  pub tags : Tags

unfoldable pub new_conn : {N : Type 0} → ℕ → Conn N
new_conn id = record {
  conn_id = id;
  fids = λ _. none;
  msize = 0;
  tags = record { contexts = λ _. none; cancelled = λ _. false; next = 0 };
}

-- fids.Store and fids.Delete
unfoldable pub store : {N : Type 0} → Conn N → ℕ → FidInfo N → Conn N
store c fid info = record c { fids = λ k. if k == fid then some info else c.fids k }

unfoldable pub delete : {N : Type 0} → Conn N → ℕ → Conn N
delete c fid = record c { fids = λ k. if k == fid then none else c.fids k }

-- `bcid << 32 | uint64(fid)`: the fid has 32 bits, so the bits of the two do not overlap.
unfoldable pub to_conn_fid : {N : Type 0} → Conn N → ℕ → ℕ
to_conn_fid c fid = c.conn_id * 2 ^ 32 + fid

unfoldable pub error_reply : ℕ → Text → Reply
error_reply tag ename =
    reply (rerror (record { header = record { type = rerror_type; tag = tag }; ename = ename }))

-- The connection and the world behind it.
pub record State (W N : Type 0) : Type 0 where
  pub conn : Conn N
  pub world : W

abbrev pub Step : Type 0 → Type 0 → Type 0
Step W N = Reply × State W N
