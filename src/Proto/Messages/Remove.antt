-- ===== src/Proto/Messages/Remove.antt =====
-- proto/remove.go
use go9p.Base.{ℕ, ◌+◌, List, [], length, Option, some, ◌≡◌, refl, arith}
use go9p.Proto.Marshal.{le_bytes, IsU32}
use go9p.Proto.Marshal.Cursor.{
  to_little_e32, to_end, make_buffer, Fills-Emits, to_little_e32-Emits, to_end-Fills,
  length-le_bytes,
}
use go9p.Proto.Marshal.Parser.{Parser, u32, pure, ◌>>=◌, Parses, Parses-map, Parses-u32}
use go9p.Proto.Header.{Header, to_header, frame, make_buffer-frame}

pub record TRemove : Type 0 where
  pub header : Header
  pub fid : ℕ

pub record IsTRemove (t : TRemove) : Type 0 where
  pub fid : IsU32 t.fid

-- size[4] Tremove tag[2] fid[4]
unfoldable pub compose_tremove : TRemove → Option (List ℕ)
compose_tremove t =
    let size = 4 + 1 + 2 + 4 in make_buffer size (to_header size t.header (to_little_e32 t.fid))

unfoldable pub parse_tremove : Header → Parser TRemove
parse_tremove h = do fid ← u32; pure (record { header = h; fid = fid })

abbrev pub tremove_body : TRemove → List ℕ
tremove_body t = le_bytes 4 t.fid

length-tremove_body : (t : TRemove) → length (tremove_body t) ≡ 4
length-tremove_body t = length-le_bytes 4 t.fid

-- Compose does not panic, and writes the frame of the body.
pub compose_tremove_lem :
    (t : TRemove) → IsTRemove t → compose_tremove t ≡ some (frame t.header (tremove_body t))
unfolding compose_tremove
compose_tremove_lem t v =
    make_buffer-frame t.header _ (omega (arith, length-tremove_body t)) (omega (arith))
      (Fills-Emits (to_little_e32-Emits t.fid))

-- The parser reads the body back.
pub Parses-tremove :
    (t : TRemove) → IsTRemove t → Parses (parse_tremove t.header) (tremove_body t) t
unfolding parse_tremove
Parses-tremove t v = Parses-map _ (Parses-u32 v.fid)

pub record RRemove : Type 0 where
  pub header : Header

-- size[4] Rremove tag[2]
unfoldable pub compose_rremove : RRemove → Option (List ℕ)
compose_rremove t = let size = 4 + 1 + 2 in make_buffer size (to_header size t.header (to_end))

unfoldable pub parse_rremove : Header → Parser RRemove
parse_rremove h = pure (record { header = h })

abbrev pub rremove_body : RRemove → List ℕ
rremove_body t = []

pub compose_rremove_lem : (t : RRemove) → compose_rremove t ≡ some (frame t.header (rremove_body t))
unfolding compose_rremove
compose_rremove_lem t = make_buffer-frame t.header _ (omega arith) (omega arith) to_end-Fills

pub Parses-rremove : (t : RRemove) → Parses (parse_rremove t.header) (rremove_body t) t
unfolding parse_rremove
Parses-rremove t = record { at = λ rest. refl }
