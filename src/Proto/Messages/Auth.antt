-- ===== src/Proto/Messages/Auth.antt =====
-- proto/auth.go
use go9p.Base.{ℕ, ◌+◌, List, ◌++◌, length, Option, some, ◌≡◌, arith, length-append}
use go9p.Proto.Marshal.{le_bytes, IsU32, IsText}
use go9p.Proto.Marshal.Cursor.{
  ◌then_write◌, to_little_e32, to_string, to_composed_last, make_buffer, Fills-then, Fills-Emits,
  to_little_e32-Emits, to_string-Emits, to_composed_last-Fills, length-le_bytes, text,
}
use go9p.Proto.Marshal.Parser.{
  Parser, u32, string, pure, ◌>>=◌, Parses, Parses-bind, Parses-map, Parses-u32, Parses-string,
}
use go9p.Proto.Header.{Header, to_header, frame, make_buffer-frame}
use go9p.Proto.Qid.{Qid, IsQid, compose_qid, parse_qid, qid_bytes, Parses-qid, compose_qid_lem}

pub record TAuth : Type 0 where
  pub header : Header
  pub afid : ℕ
  pub uname : List ℕ
  pub aname : List ℕ

pub record IsTAuth (t : TAuth) : Type 0 where
  pub afid : IsU32 t.afid
  pub uname : IsText t.uname
  pub aname : IsText t.aname

-- size[4] Tauth tag[2] afid[4] uname[s] aname[s]
unfoldable pub compose_tauth : TAuth → Option (List ℕ)
compose_tauth t =
    let size = 4 + 1 + 2 + 4 + (2 + length t.uname) + (2 + length t.aname) in
    make_buffer size (
      to_header size t.header
        (to_little_e32 t.afid then_write to_string t.uname then_write to_string t.aname))

unfoldable pub parse_tauth : Header → Parser TAuth
parse_tauth h = do
  afid ← u32
  uname ← string
  aname ← string
  pure (record { header = h; afid = afid; uname = uname; aname = aname })

abbrev pub tauth_body : TAuth → List ℕ
tauth_body t = le_bytes 4 t.afid ++ (text t.uname ++ (text t.aname))

length-tauth_body :
    (t : TAuth) → length (tauth_body t) ≡ 4 + (2 + length t.uname) + (2 + length t.aname)
length-tauth_body t = simp (length-append, length-le_bytes) (omega arith)

-- Compose does not panic, and writes the frame of the body.
pub compose_tauth_lem :
    (t : TAuth) → IsTAuth t → compose_tauth t ≡ some (frame t.header (tauth_body t))
unfolding compose_tauth
compose_tauth_lem t v =
    make_buffer-frame t.header _ (omega (arith, length-tauth_body t))
      (omega (arith, v.uname, v.aname))
      (Fills-then (to_little_e32-Emits t.afid) (
        Fills-then (to_string-Emits t.uname v.uname)
          (Fills-Emits (to_string-Emits t.aname v.aname))))

-- The parser reads the body back.
pub Parses-tauth : (t : TAuth) → IsTAuth t → Parses (parse_tauth t.header) (tauth_body t) t
unfolding parse_tauth
Parses-tauth t v =
    Parses-bind _ (Parses-u32 v.afid)
      (Parses-bind _ (Parses-string t.uname v.uname) (Parses-map _ (Parses-string t.aname v.aname)))

pub record RAuth : Type 0 where
  pub header : Header
  pub aqid : Qid

pub record IsRAuth (t : RAuth) : Type 0 where
  pub aqid : IsQid t.aqid

-- size[4] Rauth tag[2] aqid[13]
unfoldable pub compose_rauth : RAuth → Option (List ℕ)
compose_rauth t =
    let size = 4 + 1 + 2 + 13 in
    make_buffer size (to_header size t.header (to_composed_last (compose_qid t.aqid)))

unfoldable pub parse_rauth : Header → Parser RAuth
parse_rauth h = do aqid ← parse_qid; pure (record { header = h; aqid = aqid })

abbrev pub rauth_body : RAuth → List ℕ
rauth_body t = qid_bytes t.aqid

length-rauth_body : (t : RAuth) → length (rauth_body t) ≡ 13
length-rauth_body t = simp (length-append, length-le_bytes) (omega arith)

-- Compose does not panic, and writes the frame of the body.
pub compose_rauth_lem :
    (t : RAuth) → IsRAuth t → compose_rauth t ≡ some (frame t.header (rauth_body t))
unfolding compose_rauth
compose_rauth_lem t v =
    make_buffer-frame t.header _ (omega (arith, length-rauth_body t)) (omega (arith))
      (to_composed_last-Fills (compose_qid_lem t.aqid))

-- The parser reads the body back.
pub Parses-rauth : (t : RAuth) → IsRAuth t → Parses (parse_rauth t.header) (rauth_body t) t
unfolding parse_rauth
Parses-rauth t v = Parses-map _ (Parses-qid t.aqid v.aqid)
