-- ===== src/Proto/Messages/Write.antt =====
-- proto/write.go
use go9p.Base.{
  ℕ, ◌+◌, ◌%◌, ◌^◌, List, ◌++◌, length, Option, some, ◌≡◌, arith, length-append, mod-eq_of_lt,
}
use go9p.Proto.Marshal.{le_bytes, IsU32, IsU64}
use go9p.Proto.Marshal.Cursor.{
  ◌then_write◌, to_little_e32, to_little_e64, to_copy_last, make_buffer, Fills-then, Fills-Emits,
  to_little_e32-Emits, to_little_e64-Emits, to_copy_last-Fills, length-le_bytes,
}
use go9p.Proto.Marshal.Parser.{
  Parser, u32, u64, counted, pure, ◌>>=◌, Parses, Parses-bind, Parses-map, Parses-u32, Parses-u64,
  Parses-counted,
}
use go9p.Proto.Header.{Header, to_header, frame, make_buffer-frame}

pub record TWrite : Type 0 where
  pub header : Header
  pub fid : ℕ
  pub offset : ℕ
  pub count : ℕ
  pub bytes : List ℕ

pub record IsTWrite (t : TWrite) : Type 0 where
  pub fid : IsU32 t.fid
  pub offset : IsU64 t.offset
  pub count : IsU32 t.count
  pub counted : t.count ≡ length t.bytes
  pub fits : IsU32 (23 + t.count)

-- size[4] Twrite tag[2] fid[4] offset[8] count[4] data[count]; the length is computed on uint32, and data beyond the count is cut.
unfoldable pub compose_twrite : TWrite → Option (List ℕ)
compose_twrite t =
    let size = (23 + t.count) % 2 ^ 32 in
    make_buffer size (
      to_header size t.header (
        to_little_e32 t.fid
        then_write to_little_e64 t.offset
        then_write to_little_e32 t.count
        then_write to_copy_last t.bytes))

unfoldable pub parse_twrite : Header → Parser TWrite
parse_twrite h = do
  fid ← u32
  offset ← u64
  count ← u32
  bytes ← counted count
  pure (record { header = h; fid = fid; offset = offset; count = count; bytes = bytes })

abbrev pub twrite_body : TWrite → List ℕ
twrite_body t = le_bytes 4 t.fid ++ (le_bytes 8 t.offset ++ (le_bytes 4 t.count ++ (t.bytes)))

length-twrite_body : (t : TWrite) → length (twrite_body t) + 7 ≡ 23 + length t.bytes
length-twrite_body t = simp (length-append, length-le_bytes) (omega arith)

Parses-counted_as : (n : ℕ) (bs : List ℕ) → n ≡ length bs → Parses (counted n) bs bs
Parses-counted_as n bs e = rw e (Parses-counted bs)

-- Compose does not panic, and writes the frame of the body.
pub compose_twrite_lem :
    (t : TWrite) → IsTWrite t → compose_twrite t ≡ some (frame t.header (twrite_body t))
unfolding compose_twrite
compose_twrite_lem t v = rw (mod-eq_of_lt v.fits) (
    make_buffer-frame t.header _ (omega (arith, length-twrite_body t, v.counted)) v.fits (
      Fills-then (to_little_e32-Emits t.fid) (
        Fills-then (to_little_e64-Emits t.offset)
          (Fills-then (to_little_e32-Emits t.count) (to_copy_last-Fills t.bytes)))))

-- The parser reads the body back.
pub Parses-twrite : (t : TWrite) → IsTWrite t → Parses (parse_twrite t.header) (twrite_body t) t
unfolding parse_twrite
Parses-twrite t v = Parses-bind _ (Parses-u32 v.fid) (
    Parses-bind _ (Parses-u64 v.offset) (
      Parses-bind _ (Parses-u32 v.count)
        (Parses-map _ (Parses-counted_as t.count t.bytes v.counted))))

pub record RWrite : Type 0 where
  pub header : Header
  pub count : ℕ

pub record IsRWrite (t : RWrite) : Type 0 where
  pub count : IsU32 t.count

-- size[4] Rwrite tag[2] count[4]
unfoldable pub compose_rwrite : RWrite → Option (List ℕ)
compose_rwrite t =
    let size = 4 + 1 + 2 + 4 in make_buffer size (to_header size t.header (to_little_e32 t.count))

unfoldable pub parse_rwrite : Header → Parser RWrite
parse_rwrite h = do count ← u32; pure (record { header = h; count = count })

abbrev pub rwrite_body : RWrite → List ℕ
rwrite_body t = le_bytes 4 t.count

length-rwrite_body : (t : RWrite) → length (rwrite_body t) ≡ 4
length-rwrite_body t = length-le_bytes 4 t.count

-- Compose does not panic, and writes the frame of the body.
pub compose_rwrite_lem :
    (t : RWrite) → IsRWrite t → compose_rwrite t ≡ some (frame t.header (rwrite_body t))
unfolding compose_rwrite
compose_rwrite_lem t v =
    make_buffer-frame t.header _ (omega (arith, length-rwrite_body t)) (omega (arith))
      (Fills-Emits (to_little_e32-Emits t.count))

-- The parser reads the body back.
pub Parses-rwrite : (t : RWrite) → IsRWrite t → Parses (parse_rwrite t.header) (rwrite_body t) t
unfolding parse_rwrite
Parses-rwrite t v = Parses-map _ (Parses-u32 v.count)
