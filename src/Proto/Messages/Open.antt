-- ===== src/Proto/Messages/Open.antt =====
-- proto/open.go
use go9p.Base.{ℕ, ◌+◌, List, [], ◌∷◌, ◌++◌, length, Option, some, ◌≡◌, refl, arith, length-append}
use go9p.Proto.Marshal.{le_bytes, IsByte, IsU32}
use go9p.Proto.Marshal.Cursor.{
  ◌then_write◌, to_little_e32, to_byte, make_buffer, Fills-then, Fills-Emits, to_little_e32-Emits,
  to_byte-Emits, length-le_bytes,
}
use go9p.Proto.Marshal.Parser.{
  ok, err, short_fcall, Parser, u32, pure, ◌>>=◌, Parses, Parses-bind, Parses-map, Parses-u32,
}
use go9p.Proto.Header.{Header, to_header, frame, make_buffer-frame}
use go9p.Proto.Qid.{Qid, IsQid, parse_qid, qid_bytes, to_qid, to_qid-Emits, Parses-qid}

-- The mode byte of TOpen.parse, with its own check of the length.
mode_byte : Parser ℕ
mode_byte [] = err short_fcall
mode_byte (b ∷ buff) = ok (b, buff)

Parses-mode : (b : ℕ) → Parses mode_byte (b ∷ []) b
unfolding mode_byte
Parses-mode b = record { at = λ rest. refl }

pub record TOpen : Type 0 where
  pub header : Header
  pub fid : ℕ
  pub mode : ℕ

pub record IsTOpen (t : TOpen) : Type 0 where
  pub fid : IsU32 t.fid
  pub mode : IsByte t.mode

-- size[4] Topen tag[2] fid[4] mode[1]
unfoldable pub compose_topen : TOpen → Option (List ℕ)
compose_topen t =
    let size = 4 + 1 + 2 + 4 + 1 in
    make_buffer size (to_header size t.header (to_little_e32 t.fid then_write to_byte t.mode))

unfoldable pub parse_topen : Header → Parser TOpen
unfolding mode_byte
parse_topen h = do fid ← u32; mode ← mode_byte; pure (record { header = h; fid = fid; mode = mode })

abbrev pub topen_body : TOpen → List ℕ
topen_body t = le_bytes 4 t.fid ++ ((t.mode ∷ []))

length-topen_body : (t : TOpen) → length (topen_body t) ≡ 4 + 1
length-topen_body t = simp (length-append, length-le_bytes) (omega arith)

-- Compose does not panic, and writes the frame of the body.
pub compose_topen_lem :
    (t : TOpen) → IsTOpen t → compose_topen t ≡ some (frame t.header (topen_body t))
unfolding compose_topen
compose_topen_lem t v =
    make_buffer-frame t.header _ (omega (arith, length-topen_body t)) (omega (arith))
      (Fills-then (to_little_e32-Emits t.fid) (Fills-Emits (to_byte-Emits t.mode)))

-- The parser reads the body back.
pub Parses-topen : (t : TOpen) → IsTOpen t → Parses (parse_topen t.header) (topen_body t) t
unfolding parse_topen
Parses-topen t v = Parses-bind _ (Parses-u32 v.fid) (Parses-map _ (Parses-mode t.mode))

pub record ROpen : Type 0 where
  pub header : Header
  pub qid : Qid
  pub iounit : ℕ

pub record IsROpen (t : ROpen) : Type 0 where
  pub qid : IsQid t.qid
  pub iounit : IsU32 t.iounit

-- size[4] Ropen tag[2] qid[13] iounit[4]
unfoldable pub compose_ropen : ROpen → Option (List ℕ)
compose_ropen t =
    let size = 4 + 1 + 2 + 13 + 4 in
    make_buffer size (to_header size t.header (to_qid t.qid then_write to_little_e32 t.iounit))

unfoldable pub parse_ropen : Header → Parser ROpen
parse_ropen h = do
  qid ← parse_qid
  iounit ← u32
  pure (record { header = h; qid = qid; iounit = iounit })

abbrev pub ropen_body : ROpen → List ℕ
ropen_body t = qid_bytes t.qid ++ (le_bytes 4 t.iounit)

length-ropen_body : (t : ROpen) → length (ropen_body t) ≡ 13 + 4
length-ropen_body t = simp (length-append, length-le_bytes) (omega arith)

-- Compose does not panic, and writes the frame of the body.
pub compose_ropen_lem :
    (t : ROpen) → IsROpen t → compose_ropen t ≡ some (frame t.header (ropen_body t))
unfolding compose_ropen
compose_ropen_lem t v =
    make_buffer-frame t.header _ (omega (arith, length-ropen_body t)) (omega (arith))
      (Fills-then (to_qid-Emits t.qid) (Fills-Emits (to_little_e32-Emits t.iounit)))

-- The parser reads the body back.
pub Parses-ropen : (t : ROpen) → IsROpen t → Parses (parse_ropen t.header) (ropen_body t) t
unfolding parse_ropen
Parses-ropen t v = Parses-bind _ (Parses-qid t.qid v.qid) (Parses-map _ (Parses-u32 v.iounit))
