-- ===== src/Proto/Messages/Error.antt =====
-- proto/error.go
use go9p.Base.{ℕ, ◌+◌, List, length, Option, some, ◌≡◌, arith, length-append}
use go9p.Proto.Marshal.{IsText}
use go9p.Proto.Marshal.Cursor.{
  to_string, make_buffer, Fills-Emits, to_string-Emits, length-le_bytes, text,
}
use go9p.Proto.Marshal.Parser.{Parser, string, pure, ◌>>=◌, Parses, Parses-map, Parses-string}
use go9p.Proto.Header.{Header, to_header, frame, make_buffer-frame}

pub record RError : Type 0 where
  pub header : Header
  pub ename : List ℕ

pub record IsRError (t : RError) : Type 0 where
  pub ename : IsText t.ename

-- size[4] Rerror tag[2] ename[s]
unfoldable pub compose_rerror : RError → Option (List ℕ)
compose_rerror t =
    let size = 4 + 1 + 2 + (2 + length t.ename) in
    make_buffer size (to_header size t.header (to_string t.ename))

unfoldable pub parse_rerror : Header → Parser RError
parse_rerror h = do ename ← string; pure (record { header = h; ename = ename })

abbrev pub rerror_body : RError → List ℕ
rerror_body t = text t.ename

length-rerror_body : (t : RError) → length (rerror_body t) ≡ (2 + length t.ename)
length-rerror_body t = simp (length-append, length-le_bytes) (omega arith)

-- Compose does not panic, and writes the frame of the body.
pub compose_rerror_lem :
    (t : RError) → IsRError t → compose_rerror t ≡ some (frame t.header (rerror_body t))
unfolding compose_rerror
compose_rerror_lem t v =
    make_buffer-frame t.header _ (omega (arith, length-rerror_body t)) (omega (arith, v.ename))
      (Fills-Emits (to_string-Emits t.ename v.ename))

-- The parser reads the body back.
pub Parses-rerror : (t : RError) → IsRError t → Parses (parse_rerror t.header) (rerror_body t) t
unfolding parse_rerror
Parses-rerror t v = Parses-map _ (Parses-string t.ename v.ename)
