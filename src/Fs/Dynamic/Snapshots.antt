-- ===== src/Fs/Dynamic/Snapshots.antt =====
-- What a fid of a DynamicFile reads.
use go9p.Base.{
  ℕ, ◌+◌, ◌^◌, ◌<◌, List, [], ◌∷◌, false, length, take, drop, some, ◌==◌, ◌≡◌, refl, ap, ◌∙◌,
  ==_refl,
}
use go9p.Fs.Result.{ok}
use go9p.Fs.Static.File.{static_file_read}
use go9p.Fs.Static.File.Contents.{static_file_read-take}
use go9p.Fs.Dynamic.{
  DynamicFile, content_of, set_content, dynamic_open, opened_with, dynamic_read, dynamic_close,
}

-- What other fids do, as Open and Close of the file.
pub data Use : Type 0 where
  opens : ℕ → ℕ → Use
  closes : ℕ → Use

abbrev pub user : Use → ℕ
user (opens fid omode) = fid
user (closes fid) = fid

abbrev pub NotBy : ℕ → List Use → Type 0
NotBy fid [] = Unit
NotBy fid (u ∷ us) = ((user u == fid) ≡ false) × NotBy fid us

module _ {G : Type 0} where
  -- A read is a read of a StaticFile that has the contents of the fid.
  pub dynamic_read-static :
      (f : DynamicFile G) (fid offset count : ℕ)
      → dynamic_read f fid offset count
        ≡ static_file_read
            (record { f_stat = f.f_stat; contents = content_of (f.fid_content fid) })
            offset
            count
  unfolding dynamic_read static_file_read
  dynamic_read-static f fid offset count = refl

  unfoldable pub use_file : DynamicFile G → G → Use → DynamicFile G × G
  use_file f g (opens fid omode) = dynamic_open f fid omode g
  use_file f g (closes fid) = (dynamic_close f fid, g)

  unfoldable pub use_all : DynamicFile G → G → List Use → DynamicFile G × G
  unfolding use_file
  use_all f g [] = (f, g)
  use_all f g (u ∷ us) = use_all (use_file f g u).0 (use_file f g u).1 us

  content-use :
      (f : DynamicFile G) (g : G) (u : Use) (fid : ℕ)
      → (user u == fid) ≡ false
      → (use_file f g u).0.fid_content fid ≡ f.fid_content fid
  unfolding use_file dynamic_open opened_with dynamic_close set_content
  content-use f g (opens j omode) fid e = rw e refl
  content-use f g (closes j) fid e = rw e refl

  content-use_all :
      (us : List Use) (f : DynamicFile G) (g : G) (fid : ℕ)
      → NotBy fid us
      → (use_all f g us).0.fid_content fid ≡ f.fid_content fid
  unfolding use_all
  content-use_all [] f g fid n = refl
  content-use_all (u ∷ us) f g fid n =
      content-use_all us (use_file f g u).0 (use_file f g u).1 fid n.1 ∙ content-use f g u fid n.0

  content-open :
      (f : DynamicFile G) (g : G) (fid omode : ℕ)
      → (dynamic_open f fid omode g).0.fid_content fid ≡ some (f.gen_content g).0
  unfolding dynamic_open opened_with set_content
  content-open f g fid omode = rw (==_refl fid) refl

  -- A fid reads the range of the contents that were made when it opened the file, whatever other
  -- fids open and close in between, and whatever the contents would be now. The contents have less
  -- than 2^64 bytes, and the offset and the count do not overflow.
  pub dynamic_read-open :
      (f : DynamicFile G) (g : G) (fid omode offset count : ℕ) (us : List Use)
      → NotBy fid us
      → length (f.gen_content g).0 < 2 ^ 64
      → offset + count < 2 ^ 64
      → dynamic_read
          (use_all (dynamic_open f fid omode g).0 (dynamic_open f fid omode g).1 us).0
          fid
          offset
          count
        ≡ ok (take count (drop offset (f.gen_content g).0))
  unfolding content_of
  dynamic_read-open f g fid omode offset count us n small room =
      let f' = (use_all (dynamic_open f fid omode g).0 (dynamic_open f fid omode g).1 us).0 in
      let c : f'.fid_content fid ≡ some (f.gen_content g).0 =
        content-use_all us (dynamic_open f fid omode g).0 (dynamic_open f fid omode g).1 fid n
        ∙ content-open f g fid omode in
      dynamic_read-static f' fid offset count
      ∙ ap
          (λ o.
            static_file_read (record { f_stat = f'.f_stat; contents = content_of o }) offset count)
          c
      ∙ static_file_read-take (record { f_stat = f'.f_stat; contents = (f.gen_content g).0 }) offset
          count small room
