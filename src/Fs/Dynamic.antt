-- ===== src/Fs/Dynamic.antt =====
-- fs/dynamic.go: DynamicFile, whose contents are made for each fid at Open, and WrappedFile.
pub mod Snapshots
use go9p.Base.{
  ℕ, ◌+◌, ◌-◌, ◌%◌, ◌^◌, List, [], length, take, drop, Option, none, some, Bool, true, false, ltb,
  leb, ◌==◌, ◌||◌, if◌then◌else◌,
}
use go9p.Proto.Stat.{Stat}
use go9p.Fs.Result.{Result, ok, err, panic}

-- A DynamicFile. A missing key of fidContent gives the nil slice. `genContent` may work on anything:
-- G is its state.
pub record DynamicFile (G : Type 0) : Type 0 where
  pub f_stat : Stat
  pub fid_content : ℕ → Option (List ℕ)
  pub gen_content : G → List ℕ × G

unfoldable pub content_of : Option (List ℕ) → List ℕ
content_of none = []
content_of (some bs) = bs

cut : List ℕ → ℕ → ℕ → Result (List ℕ)
cut bs lo hi = if ltb hi lo || ltb (length bs) hi then panic else ok (take (hi - lo) (drop lo bs))

module _ {G : Type 0} where
  unfoldable pub new_dynamic_file : Stat → (G → List ℕ × G) → DynamicFile G
  new_dynamic_file st gen_content = record {
    f_stat = st;
    fid_content = λ fid. none;
    gen_content = gen_content;
  }

  unfoldable pub set_content : DynamicFile G → ℕ → Option (List ℕ) → DynamicFile G
  set_content f fid o = record f { fid_content = λ j. if fid == j then o else f.fid_content j }

  opened_with : DynamicFile G → ℕ → List ℕ × G → DynamicFile G × G
  unfolding set_content
  opened_with f fid (bs, g) = (set_content f fid (some bs), g)

  unfoldable pub dynamic_open : DynamicFile G → ℕ → ℕ → G → DynamicFile G × G
  unfolding opened_with
  dynamic_open f fid omode g = opened_with f fid (f.gen_content g)

  unfoldable pub dynamic_read : DynamicFile G → ℕ → ℕ → ℕ → Result (List ℕ)
  unfolding content_of cut
  dynamic_read f fid offset count =
      let bs = content_of (f.fid_content fid) in
      let flen = length bs in
      if leb flen offset
      then ok []
      else let count' = if ltb flen ((offset + count) % 2 ^ 64) then flen - offset else count in
        cut bs offset ((offset + count') % 2 ^ 64)

  unfoldable pub dynamic_close : DynamicFile G → ℕ → DynamicFile G
  unfolding set_content
  dynamic_close f fid = set_content f fid none

-- A File with its operations on a state, and a WrappedFile of it: hooks that stand in for them.
pub record FileOps (W : Type 0) : Type 0 where
  pub open_file : ℕ → ℕ → W → Result (Unit {0}) × W
  pub read_file : ℕ → ℕ → ℕ → W → Result (List ℕ) × W
  pub write_file : ℕ → ℕ → List ℕ → W → Result ℕ × W
  pub close_file : ℕ → W → Result (Unit {0}) × W

pub record WrappedFile (W : Type 0) : Type 0 where
  pub inner : FileOps W
  pub open_f : Option (ℕ → ℕ → W → Result (Unit {0}) × W)
  pub read_f : Option (ℕ → ℕ → ℕ → W → Result (List ℕ) × W)
  pub write_f : Option (ℕ → ℕ → List ℕ → W → Result ℕ × W)
  pub close_f : Option (ℕ → W → Result (Unit {0}) × W)

unfoldable pub hook_or : {A : Type 0} → Option A → A → A
hook_or none other = other
hook_or (some hook) other = hook

-- Open, Read, Write and Close of a WrappedFile.
unfoldable pub wrapped : {W : Type 0} → WrappedFile W → FileOps W
unfolding hook_or
wrapped f = record {
  open_file = hook_or f.open_f f.inner.open_file;
  read_file = hook_or f.read_f f.inner.read_file;
  write_file = hook_or f.write_f f.inner.write_file;
  close_file = hook_or f.close_f f.inner.close_file;
}
