-- ===== src/Proto/Messages/Clunk.antt =====
-- proto/clunk.go
use go9p.Base.{ℕ, ◌+◌, List, [], length, Option, some, ◌≡◌, refl, arith}
use go9p.Proto.Marshal.{le_bytes, IsU32}
use go9p.Proto.Marshal.Cursor.{
  to_little_e32, to_end, make_buffer, Fills-Emits, to_little_e32-Emits, to_end-Fills,
  length-le_bytes,
}
use go9p.Proto.Marshal.Parser.{Parser, u32, pure, ◌>>=◌, Parses, Parses-map, Parses-u32}
use go9p.Proto.Header.{Header, to_header, frame, make_buffer-frame}

pub record TClunk : Type 0 where
  pub header : Header
  pub fid : ℕ

pub record IsTClunk (t : TClunk) : Type 0 where
  pub fid : IsU32 t.fid

-- size[4] Tclunk tag[2] fid[4]
unfoldable pub compose_tclunk : TClunk → Option (List ℕ)
compose_tclunk t =
    let size = 4 + 1 + 2 + 4 in make_buffer size (to_header size t.header (to_little_e32 t.fid))

unfoldable pub parse_tclunk : Header → Parser TClunk
parse_tclunk h = do fid ← u32; pure (record { header = h; fid = fid })

abbrev pub tclunk_body : TClunk → List ℕ
tclunk_body t = le_bytes 4 t.fid

length-tclunk_body : (t : TClunk) → length (tclunk_body t) ≡ 4
length-tclunk_body t = length-le_bytes 4 t.fid

-- Compose does not panic, and writes the frame of the body.
pub compose_tclunk_lem :
    (t : TClunk) → IsTClunk t → compose_tclunk t ≡ some (frame t.header (tclunk_body t))
unfolding compose_tclunk
compose_tclunk_lem t v =
    make_buffer-frame t.header _ (omega (arith, length-tclunk_body t)) (omega (arith))
      (Fills-Emits (to_little_e32-Emits t.fid))

-- The parser reads the body back.
pub Parses-tclunk : (t : TClunk) → IsTClunk t → Parses (parse_tclunk t.header) (tclunk_body t) t
unfolding parse_tclunk
Parses-tclunk t v = Parses-map _ (Parses-u32 v.fid)

pub record RClunk : Type 0 where
  pub header : Header

-- size[4] Rclunk tag[2]
unfoldable pub compose_rclunk : RClunk → Option (List ℕ)
compose_rclunk t = let size = 4 + 1 + 2 in make_buffer size (to_header size t.header (to_end))

unfoldable pub parse_rclunk : Header → Parser RClunk
parse_rclunk h = pure (record { header = h })

abbrev pub rclunk_body : RClunk → List ℕ
rclunk_body t = []

pub compose_rclunk_lem : (t : RClunk) → compose_rclunk t ≡ some (frame t.header (rclunk_body t))
unfolding compose_rclunk
compose_rclunk_lem t = make_buffer-frame t.header _ (omega arith) (omega arith) to_end-Fills

pub Parses-rclunk : (t : RClunk) → Parses (parse_rclunk t.header) (rclunk_body t) t
unfolding parse_rclunk
Parses-rclunk t = record { at = λ rest. refl }
