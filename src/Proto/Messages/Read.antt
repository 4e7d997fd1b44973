-- ===== src/Proto/Messages/Read.antt =====
-- proto/read.go
use go9p.Base.{
  ℕ, ◌+◌, ◌%◌, ◌^◌, List, ◌++◌, length, Option, some, ◌≡◌, arith, length-append, mod-eq_of_lt,
}
use go9p.Proto.Marshal.{le_bytes, IsU32, IsU64}
use go9p.Proto.Marshal.Cursor.{
  ◌then_write◌, to_little_e32, to_little_e64, to_copy_last, make_buffer, Fills-then, Fills-Emits,
  to_little_e32-Emits, to_little_e64-Emits, to_copy_last-Fills, length-le_bytes,
}
use go9p.Proto.Marshal.Parser.{
  Parser, u32, u64, counted, pure, ◌>>=◌, Parses, Parses-bind, Parses-map, Parses-u32, Parses-u64,
  Parses-counted,
}
use go9p.Proto.Header.{Header, to_header, frame, make_buffer-frame}

pub record TRead : Type 0 where
  pub header : Header
  pub fid : ℕ
  pub offset : ℕ
  pub count : ℕ

pub record IsTRead (t : TRead) : Type 0 where
  pub fid : IsU32 t.fid
  pub offset : IsU64 t.offset
  pub count : IsU32 t.count

-- size[4] Tread tag[2] fid[4] offset[8] count[4]
unfoldable pub compose_tread : TRead → Option (List ℕ)
compose_tread t =
    let size = 4 + 1 + 2 + 4 + 8 + 4 in
    make_buffer size (
      to_header size t.header
        (to_little_e32 t.fid then_write to_little_e64 t.offset then_write to_little_e32 t.count))

unfoldable pub parse_tread : Header → Parser TRead
parse_tread h = do
  fid ← u32
  offset ← u64
  count ← u32
  pure (record { header = h; fid = fid; offset = offset; count = count })

abbrev pub tread_body : TRead → List ℕ
tread_body t = le_bytes 4 t.fid ++ (le_bytes 8 t.offset ++ (le_bytes 4 t.count))

length-tread_body : (t : TRead) → length (tread_body t) ≡ 4 + 8 + 4
length-tread_body t = simp (length-append, length-le_bytes) (omega arith)

-- Compose does not panic, and writes the frame of the body.
pub compose_tread_lem :
    (t : TRead) → IsTRead t → compose_tread t ≡ some (frame t.header (tread_body t))
unfolding compose_tread
compose_tread_lem t v =
    make_buffer-frame t.header _ (omega (arith, length-tread_body t)) (omega (arith)) (
      Fills-then (to_little_e32-Emits t.fid)
        (Fills-then (to_little_e64-Emits t.offset) (Fills-Emits (to_little_e32-Emits t.count))))

-- The parser reads the body back.
pub Parses-tread : (t : TRead) → IsTRead t → Parses (parse_tread t.header) (tread_body t) t
unfolding parse_tread
Parses-tread t v =
    Parses-bind _ (Parses-u32 v.fid)
      (Parses-bind _ (Parses-u64 v.offset) (Parses-map _ (Parses-u32 v.count)))

pub record RRead : Type 0 where
  pub header : Header
  pub count : ℕ
  pub bytes : List ℕ

pub record IsRRead (t : RRead) : Type 0 where
  pub count : IsU32 t.count
  pub counted : t.count ≡ length t.bytes
  pub fits : IsU32 (11 + t.count)

-- size[4] Rread tag[2] count[4] data[count]; the length is computed on uint32, and data beyond the count is cut.
unfoldable pub compose_rread : RRead → Option (List ℕ)
compose_rread t =
    let size = (11 + t.count) % 2 ^ 32 in
    make_buffer size
      (to_header size t.header (to_little_e32 t.count then_write to_copy_last t.bytes))

unfoldable pub parse_rread : Header → Parser RRead
parse_rread h = do
  count ← u32
  bytes ← counted count
  pure (record { header = h; count = count; bytes = bytes })

abbrev pub rread_body : RRead → List ℕ
rread_body t = le_bytes 4 t.count ++ (t.bytes)

length-rread_body : (t : RRead) → length (rread_body t) + 7 ≡ 11 + length t.bytes
length-rread_body t = simp (length-append, length-le_bytes) (omega arith)

Parses-counted_as : (n : ℕ) (bs : List ℕ) → n ≡ length bs → Parses (counted n) bs bs
Parses-counted_as n bs e = rw e (Parses-counted bs)

-- Compose does not panic, and writes the frame of the body.
pub compose_rread_lem :
    (t : RRead) → IsRRead t → compose_rread t ≡ some (frame t.header (rread_body t))
unfolding compose_rread
compose_rread_lem t v = rw (mod-eq_of_lt v.fits) (
    make_buffer-frame t.header _ (omega (arith, length-rread_body t, v.counted)) v.fits
      (Fills-then (to_little_e32-Emits t.count) (to_copy_last-Fills t.bytes)))

-- The parser reads the body back.
pub Parses-rread : (t : RRead) → IsRRead t → Parses (parse_rread t.header) (rread_body t) t
unfolding parse_rread
Parses-rread t v =
    Parses-bind _ (Parses-u32 v.count) (Parses-map _ (Parses-counted_as t.count t.bytes v.counted))
