-- ===== src/Proto/Messages/Version.antt =====
-- proto/version.go
use go9p.Base.{ℕ, ◌+◌, List, ◌++◌, length, Option, some, ◌≡◌, arith, length-append}
use go9p.Proto.Marshal.{le_bytes, IsU32, IsText}
use go9p.Proto.Marshal.Cursor.{
  ◌then_write◌, to_little_e32, to_string, make_buffer, Fills-then, Fills-Emits, to_little_e32-Emits,
  to_string-Emits, length-le_bytes, text,
}
use go9p.Proto.Marshal.Parser.{
  Parser, u32, string, pure, ◌>>=◌, Parses, Parses-bind, Parses-map, Parses-u32, Parses-string,
}
use go9p.Proto.Header.{Header, to_header, frame, make_buffer-frame}

pub record TrVersion : Type 0 where
  pub header : Header
  pub msize : ℕ
  pub version : List ℕ

pub record IsTrVersion (t : TrVersion) : Type 0 where
  pub msize : IsU32 t.msize
  pub version : IsText t.version

-- size[4] Tversion tag[2] msize[4] version[s]
unfoldable pub compose_trversion : TrVersion → Option (List ℕ)
compose_trversion t =
    let size = 4 + 1 + 2 + 4 + (2 + length t.version) in
    make_buffer size
      (to_header size t.header (to_little_e32 t.msize then_write to_string t.version))

unfoldable pub parse_trversion : Header → Parser TrVersion
parse_trversion h = do
  msize ← u32
  version ← string
  pure (record { header = h; msize = msize; version = version })

abbrev pub trversion_body : TrVersion → List ℕ
trversion_body t = le_bytes 4 t.msize ++ (text t.version)

length-trversion_body : (t : TrVersion) → length (trversion_body t) ≡ 4 + (2 + length t.version)
length-trversion_body t = simp (length-append, length-le_bytes) (omega arith)

-- Compose does not panic, and writes the frame of the body.
pub compose_trversion_lem :
    (t : TrVersion) → IsTrVersion t → compose_trversion t ≡ some (frame t.header (trversion_body t))
unfolding compose_trversion
compose_trversion_lem t v =
    make_buffer-frame t.header _ (omega (arith, length-trversion_body t)) (omega (arith, v.version))
      (Fills-then (to_little_e32-Emits t.msize) (Fills-Emits (to_string-Emits t.version v.version)))

-- The parser reads the body back.
pub Parses-trversion :
    (t : TrVersion) → IsTrVersion t → Parses (parse_trversion t.header) (trversion_body t) t
unfolding parse_trversion
Parses-trversion t v =
    Parses-bind _ (Parses-u32 v.msize) (Parses-map _ (Parses-string t.version v.version))
