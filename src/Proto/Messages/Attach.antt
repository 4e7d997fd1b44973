-- ===== src/Proto/Messages/Attach.antt =====
-- proto/attach.go
use go9p.Base.{ℕ, ◌+◌, List, ◌++◌, length, Option, some, ◌≡◌, arith, length-append}
use go9p.Proto.Marshal.{le_bytes, IsU32, IsText}
use go9p.Proto.Marshal.Cursor.{
  ◌then_write◌, to_little_e32, to_string, to_composed_last, make_buffer, Fills-then, Fills-Emits,
  to_little_e32-Emits, to_string-Emits, to_composed_last-Fills, length-le_bytes, text,
}
use go9p.Proto.Marshal.Parser.{
  Parser, u32, string, pure, ◌>>=◌, Parses, Parses-bind, Parses-map, Parses-u32, Parses-string,
}
use go9p.Proto.Header.{Header, to_header, frame, make_buffer-frame}
use go9p.Proto.Qid.{Qid, IsQid, compose_qid, parse_qid, qid_bytes, Parses-qid, compose_qid_lem}

pub record TAttach : Type 0 where
  pub header : Header
  pub fid : ℕ
  pub afid : ℕ
  pub uname : List ℕ
  pub aname : List ℕ

pub record IsTAttach (t : TAttach) : Type 0 where
  pub fid : IsU32 t.fid
  pub afid : IsU32 t.afid
  pub uname : IsText t.uname
  pub aname : IsText t.aname

-- size[4] Tattach tag[2] fid[4] afid[4] uname[s] aname[s]
unfoldable pub compose_tattach : TAttach → Option (List ℕ)
compose_tattach t =
    let size = 4 + 1 + 2 + 4 + 4 + (2 + length t.uname) + (2 + length t.aname) in
    make_buffer size (
      to_header size t.header (
        to_little_e32 t.fid
        then_write to_little_e32 t.afid
        then_write to_string t.uname
        then_write to_string t.aname))

unfoldable pub parse_tattach : Header → Parser TAttach
parse_tattach h = do
  fid ← u32
  afid ← u32
  uname ← string
  aname ← string
  pure (record { header = h; fid = fid; afid = afid; uname = uname; aname = aname })

abbrev pub tattach_body : TAttach → List ℕ
tattach_body t = le_bytes 4 t.fid ++ (le_bytes 4 t.afid ++ (text t.uname ++ (text t.aname)))

length-tattach_body :
    (t : TAttach) → length (tattach_body t) ≡ 4 + 4 + (2 + length t.uname) + (2 + length t.aname)
length-tattach_body t = simp (length-append, length-le_bytes) (omega arith)

-- Compose does not panic, and writes the frame of the body.
pub compose_tattach_lem :
    (t : TAttach) → IsTAttach t → compose_tattach t ≡ some (frame t.header (tattach_body t))
unfolding compose_tattach
compose_tattach_lem t v =
    make_buffer-frame t.header _ (omega (arith, length-tattach_body t))
      (omega (arith, v.uname, v.aname))
      (Fills-then (to_little_e32-Emits t.fid) (
        Fills-then (to_little_e32-Emits t.afid) (
          Fills-then (to_string-Emits t.uname v.uname)
            (Fills-Emits (to_string-Emits t.aname v.aname)))))

-- The parser reads the body back.
pub Parses-tattach :
    (t : TAttach) → IsTAttach t → Parses (parse_tattach t.header) (tattach_body t) t
unfolding parse_tattach
Parses-tattach t v = Parses-bind _ (Parses-u32 v.fid) (
    Parses-bind _ (Parses-u32 v.afid) (
      Parses-bind _ (Parses-string t.uname v.uname) (Parses-map _ (Parses-string t.aname v.aname))))

pub record RAttach : Type 0 where
  pub header : Header
  pub qid : Qid

pub record IsRAttach (t : RAttach) : Type 0 where
  pub qid : IsQid t.qid

-- size[4] Rattach tag[2] qid[13]
unfoldable pub compose_rattach : RAttach → Option (List ℕ)
compose_rattach t =
    let size = 4 + 1 + 2 + 13 in
    make_buffer size (to_header size t.header (to_composed_last (compose_qid t.qid)))

unfoldable pub parse_rattach : Header → Parser RAttach
parse_rattach h = do qid ← parse_qid; pure (record { header = h; qid = qid })

abbrev pub rattach_body : RAttach → List ℕ
rattach_body t = qid_bytes t.qid

length-rattach_body : (t : RAttach) → length (rattach_body t) ≡ 13
length-rattach_body t = simp (length-append, length-le_bytes) (omega arith)

-- Compose does not panic, and writes the frame of the body.
pub compose_rattach_lem :
    (t : RAttach) → IsRAttach t → compose_rattach t ≡ some (frame t.header (rattach_body t))
unfolding compose_rattach
compose_rattach_lem t v =
    make_buffer-frame t.header _ (omega (arith, length-rattach_body t)) (omega (arith))
      (to_composed_last-Fills (compose_qid_lem t.qid))

-- The parser reads the body back.
pub Parses-rattach :
    (t : RAttach) → IsRAttach t → Parses (parse_rattach t.header) (rattach_body t) t
unfolding parse_rattach
Parses-rattach t v = Parses-map _ (Parses-qid t.qid v.qid)
