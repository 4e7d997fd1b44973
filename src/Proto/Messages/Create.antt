-- ===== src/Proto/Messages/Create.antt =====
-- proto/create.go
use go9p.Base.{ℕ, ◌+◌, List, [], ◌∷◌, ◌++◌, length, Option, some, ◌≡◌, arith, length-append}
use go9p.Proto.Marshal.{le_bytes, IsByte, IsU32, IsText}
use go9p.Proto.Marshal.Cursor.{
  ◌then_write◌, to_little_e32, to_byte, to_string, make_buffer, Fills-then, Fills-Emits,
  to_little_e32-Emits, to_byte-Emits, to_string-Emits, length-le_bytes, text,
}
use go9p.Proto.Marshal.Parser.{
  Parser, u32, string, byte, pure, ◌>>=◌, Parses, Parses-bind, Parses-map, Parses-u32,
  Parses-string, Parses-byte,
}
use go9p.Proto.Header.{Header, to_header, frame, make_buffer-frame}
use go9p.Proto.Qid.{Qid, IsQid, parse_qid, qid_bytes, to_qid, to_qid-Emits, Parses-qid}

pub record TCreate : Type 0 where
  pub header : Header
  pub fid : ℕ
  pub name : List ℕ
  pub perm : ℕ
  pub mode : ℕ

pub record IsTCreate (t : TCreate) : Type 0 where
  pub fid : IsU32 t.fid
  pub name : IsText t.name
  pub perm : IsU32 t.perm
  pub mode : IsByte t.mode

-- size[4] Tcreate tag[2] fid[4] name[s] perm[4] mode[1]
unfoldable pub compose_tcreate : TCreate → Option (List ℕ)
compose_tcreate t =
    let size = 4 + 1 + 2 + 4 + (2 + length t.name) + 4 + 1 in
    make_buffer size (
      to_header size t.header (
        to_little_e32 t.fid
        then_write to_string t.name
        then_write to_little_e32 t.perm
        then_write to_byte t.mode))

unfoldable pub parse_tcreate : Header → Parser TCreate
parse_tcreate h = do
  fid ← u32
  name ← string
  perm ← u32
  mode ← byte
  pure (record { header = h; fid = fid; name = name; perm = perm; mode = mode })

abbrev pub tcreate_body : TCreate → List ℕ
tcreate_body t = le_bytes 4 t.fid ++ (text t.name ++ (le_bytes 4 t.perm ++ ((t.mode ∷ []))))

length-tcreate_body : (t : TCreate) → length (tcreate_body t) ≡ 4 + (2 + length t.name) + 4 + 1
length-tcreate_body t = simp (length-append, length-le_bytes) (omega arith)

-- Compose does not panic, and writes the frame of the body.
pub compose_tcreate_lem :
    (t : TCreate) → IsTCreate t → compose_tcreate t ≡ some (frame t.header (tcreate_body t))
unfolding compose_tcreate
compose_tcreate_lem t v =
    make_buffer-frame t.header _ (omega (arith, length-tcreate_body t)) (omega (arith, v.name)) (
      Fills-then (to_little_e32-Emits t.fid) (
        Fills-then (to_string-Emits t.name v.name)
          (Fills-then (to_little_e32-Emits t.perm) (Fills-Emits (to_byte-Emits t.mode)))))

-- The parser reads the body back.
pub Parses-tcreate :
    (t : TCreate) → IsTCreate t → Parses (parse_tcreate t.header) (tcreate_body t) t
unfolding parse_tcreate
Parses-tcreate t v = Parses-bind _ (Parses-u32 v.fid) (
    Parses-bind _ (Parses-string t.name v.name)
      (Parses-bind _ (Parses-u32 v.perm) (Parses-map _ (Parses-byte t.mode))))

pub record RCreate : Type 0 where
  pub header : Header
  pub qid : Qid
  pub iounit : ℕ

pub record IsRCreate (t : RCreate) : Type 0 where
  pub qid : IsQid t.qid
  pub iounit : IsU32 t.iounit

-- size[4] Rcreate tag[2] qid[13] iounit[4]
unfoldable pub compose_rcreate : RCreate → Option (List ℕ)
compose_rcreate t =
    let size = 4 + 1 + 2 + 13 + 4 in
    make_buffer size (to_header size t.header (to_qid t.qid then_write to_little_e32 t.iounit))

unfoldable pub parse_rcreate : Header → Parser RCreate
parse_rcreate h = do
  qid ← parse_qid
  iounit ← u32
  pure (record { header = h; qid = qid; iounit = iounit })

abbrev pub rcreate_body : RCreate → List ℕ
rcreate_body t = qid_bytes t.qid ++ (le_bytes 4 t.iounit)

length-rcreate_body : (t : RCreate) → length (rcreate_body t) ≡ 13 + 4
length-rcreate_body t = simp (length-append, length-le_bytes) (omega arith)

-- Compose does not panic, and writes the frame of the body.
pub compose_rcreate_lem :
    (t : RCreate) → IsRCreate t → compose_rcreate t ≡ some (frame t.header (rcreate_body t))
unfolding compose_rcreate
compose_rcreate_lem t v =
    make_buffer-frame t.header _ (omega (arith, length-rcreate_body t)) (omega (arith))
      (Fills-then (to_qid-Emits t.qid) (Fills-Emits (to_little_e32-Emits t.iounit)))

-- The parser reads the body back.
pub Parses-rcreate :
    (t : RCreate) → IsRCreate t → Parses (parse_rcreate t.header) (rcreate_body t) t
unfolding parse_rcreate
Parses-rcreate t v = Parses-bind _ (Parses-qid t.qid v.qid) (Parses-map _ (Parses-u32 v.iounit))
