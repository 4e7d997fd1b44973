-- ===== src/Proto/Messages/Flush.antt =====
-- proto/flush.go
use go9p.Base.{ℕ, ◌+◌, List, [], length, Option, some, ◌≡◌, refl, arith}
use go9p.Proto.Marshal.{le_bytes, IsU16}
use go9p.Proto.Marshal.Cursor.{
  to_little_e16, to_end, make_buffer, Fills-Emits, to_little_e16-Emits, to_end-Fills,
  length-le_bytes,
}
use go9p.Proto.Marshal.Parser.{Parser, u16, pure, ◌>>=◌, Parses, Parses-map, Parses-u16}
use go9p.Proto.Header.{Header, to_header, frame, make_buffer-frame}

pub record TFlush : Type 0 where
  pub header : Header
  pub oldtag : ℕ

pub record IsTFlush (t : TFlush) : Type 0 where
  pub oldtag : IsU16 t.oldtag

-- size[4] Tflush tag[2] oldtag[2]
unfoldable pub compose_tflush : TFlush → Option (List ℕ)
compose_tflush t =
    let size = 4 + 1 + 2 + 2 in make_buffer size (to_header size t.header (to_little_e16 t.oldtag))

unfoldable pub parse_tflush : Header → Parser TFlush
parse_tflush h = do oldtag ← u16; pure (record { header = h; oldtag = oldtag })

abbrev pub tflush_body : TFlush → List ℕ
tflush_body t = le_bytes 2 t.oldtag

length-tflush_body : (t : TFlush) → length (tflush_body t) ≡ 2
length-tflush_body t = length-le_bytes 2 t.oldtag

-- Compose does not panic, and writes the frame of the body.
pub compose_tflush_lem :
    (t : TFlush) → IsTFlush t → compose_tflush t ≡ some (frame t.header (tflush_body t))
unfolding compose_tflush
compose_tflush_lem t v =
    make_buffer-frame t.header _ (omega (arith, length-tflush_body t)) (omega (arith))
      (Fills-Emits (to_little_e16-Emits t.oldtag))

-- The parser reads the body back.
pub Parses-tflush : (t : TFlush) → IsTFlush t → Parses (parse_tflush t.header) (tflush_body t) t
unfolding parse_tflush
Parses-tflush t v = Parses-map _ (Parses-u16 v.oldtag)

pub record RFlush : Type 0 where
  pub header : Header

-- size[4] Rflush tag[2]
unfoldable pub compose_rflush : RFlush → Option (List ℕ)
compose_rflush t = let size = 4 + 1 + 2 in make_buffer size (to_header size t.header (to_end))

unfoldable pub parse_rflush : Header → Parser RFlush
parse_rflush h = pure (record { header = h })

abbrev pub rflush_body : RFlush → List ℕ
rflush_body t = []

pub compose_rflush_lem : (t : RFlush) → compose_rflush t ≡ some (frame t.header (rflush_body t))
unfolding compose_rflush
compose_rflush_lem t = make_buffer-frame t.header _ (omega arith) (omega arith) to_end-Fills

pub Parses-rflush : (t : RFlush) → Parses (parse_rflush t.header) (rflush_body t) t
unfolding parse_rflush
Parses-rflush t = record { at = λ rest. refl }
