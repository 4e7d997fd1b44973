-- ===== src/Fs/Server/Data/Tag.antt =====
-- The tag of the answer to a Tread.
use go9p.Base.{
  ℕ, List, [], Option, none, some, Bool, true, false, if◌then◌else◌, ◌≡◌, refl, arith, bytes, ◌==◌,
  ◌||◌,
}
use mathlib.Core.Path.{subst}
use go9p.Proto.Stat.{Stat}
use go9p.Proto.Messages.Read.{TRead}
use go9p.Proto.Call.{get_tag, header_of}
use go9p.Serve.{Reply}
use go9p.Serve.Tagged.{HasTag}
use go9p.Fs.Permissions.{oread, ordwr, oexec}
use go9p.Fs.Result.{Result, ok, err, panic}
use go9p.Fs.Nodes.{Nodes, Kind, mod_dir, plain_dir, file, other}
use go9p.Fs.Server.Conn.{
  Extra, nothing, listing, auth_error, auth_name, FidInfo, error_reply, State,
}
use go9p.Fs.Server.Data.{
  data_reply, dir_entries, dir_start, read_dir, take_entries, from_offset, stats, read_listing,
  file_read, read_node, opened_mode, read_info, clamp_count, read,
}

HasTag-entries : (tag : ℕ) (o : Option (List ℕ)) → HasTag tag (dir_entries tag o)
unfolding dir_entries data_reply get_tag header_of
HasTag-entries tag none = tt
HasTag-entries tag (some contents) = refl

HasTag-start : (t : TRead) (o : Option (List Stat)) → HasTag t.header.tag (dir_start t o)
unfolding dir_start data_reply get_tag header_of
HasTag-start t none = refl
HasTag-start t (some sts) = HasTag-entries t.header.tag (take_entries t.count [] sts)

module _ {W N : Type 0} (nodes : Nodes W N) where
  HasTag-listing :
      (t : TRead) (e : Extra N) (w : W) → HasTag t.header.tag (read_listing nodes t e w)
  unfolding read_listing read_dir
  HasTag-listing t (listing children) w =
      HasTag-start t (from_offset t.offset 0 (stats nodes w children))
  HasTag-listing t nothing w = tt
  HasTag-listing t (auth_error _) w = tt
  HasTag-listing t (auth_name _) w = tt

  HasTag-file : (t : TRead) (r : Result (List ℕ)) → HasTag t.header.tag (file_read nodes t r)
  unfolding file_read data_reply error_reply get_tag header_of
  HasTag-file t (ok contents) = refl
  HasTag-file t (err e) = refl
  HasTag-file t panic = tt

  HasTag-node :
      (t : TRead) (info : FidInfo N) (k : Kind) (s : State W N)
      → HasTag t.header.tag (read_node nodes t info k s).0
  unfolding read_node error_reply get_tag header_of
  HasTag-node t info file s = HasTag-file t _
  HasTag-node t info mod_dir s = HasTag-listing t info.extra s.world
  HasTag-node t info plain_dir s = HasTag-listing t info.extra s.world
  HasTag-node t info other s = refl

  HasTag-if :
      (b : Bool) (tag : ℕ) (x y : Reply × State W N)
      → HasTag tag x.0
      → HasTag tag y.0
      → HasTag tag (if b then x else y).0
  HasTag-if true tag x y h k = h
  HasTag-if false tag x y h k = k

  HasTag-info :
      (t : TRead) (o : Option (FidInfo N)) (s : State W N)
      → HasTag t.header.tag (read_info nodes t o s).0
  unfolding read_info error_reply get_tag header_of
  HasTag-info t none s = refl
  HasTag-info t (some info) s =
      HasTag-if
        ((opened_mode nodes info == oread)
          || ((opened_mode nodes info == ordwr) || (opened_mode nodes info == oexec)))
        t.header.tag (read_node nodes t info (nodes.kind info.n) s)
        (error_reply t.header.tag (bytes "1File not opened."), s)
        (HasTag-node t info (nodes.kind info.n) s) refl

  tag-clamp : (t : TRead) (msize : ℕ) → (clamp_count nodes t msize).header.tag ≡ t.header.tag
  unfolding clamp_count
  tag-clamp t msize = ground arith

  pub read-HasTag : (t : TRead) (s : State W N) → HasTag t.header.tag (read nodes t s).0
  unfolding read
  read-HasTag t s =
      subst (λ tag. HasTag tag (read nodes t s).0) (tag-clamp t s.conn.msize)
        (HasTag-info (clamp_count nodes t s.conn.msize) (s.conn.fids t.fid) s)
