-- ===== src/Proto/Messages/Walk.antt =====
-- proto/walk.go
use mathlib.Core.Path.{subst}
use go9p.Base.{
  ℕ, suc, ◌+◌, ◌*◌, ◌%◌, ◌^◌, List, [], ◌∷◌, ◌++◌, length, Option, some, ◌≡◌, refl, arith,
  length-append, sym, zero, All,
}
use go9p.Proto.Marshal.{le_bytes, IsU16, IsU32, IsText}
use go9p.Proto.Marshal.Cursor.{
  Writer, ◌then_write◌, to_little_e16, to_little_e32, to_string, to_end, make_buffer, Fills,
  Fills-then, to_little_e16-Emits, to_little_e32-Emits, to_string-Emits, to_end-Fills,
  length-le_bytes, text,
}
use go9p.Proto.Marshal.Parser.{
  Parser, u16, u32, string, pure, ◌>>=◌, Parses, Parses-bind, Parses-map, Parses-u16, Parses-u32,
  Parses-string,
}
use go9p.Proto.Header.{Header, to_header, frame, make_buffer-frame}
use go9p.Proto.Qid.{
  Qid, IsQid, parse_qid, qid_bytes, length-qid_bytes, to_qid, to_qid-Emits, Parses-qid,
}

pub record TWalk : Type 0 where
  pub header : Header
  pub fid : ℕ
  pub newfid : ℕ
  pub nwname : ℕ
  pub wname : List (List ℕ)

-- The sum of the loop `for _, name := range walk.Wname { length += 2 + len(name) }`.
unfoldable pub names_length : List (List ℕ) → ℕ
names_length [] = 0
names_length (name ∷ names) = 2 + length name + names_length names

pub record IsTWalk (t : TWalk) : Type 0 where
  pub fid : IsU32 t.fid
  pub newfid : IsU32 t.newfid
  pub nwname : IsU16 t.nwname
  pub counted : t.nwname ≡ length t.wname
  pub wname : All IsText t.wname
  pub fits : IsU32 (17 + names_length t.wname)

-- `for _, name := range walk.Wname { buffer = toString(name, buffer) }`
to_names : List (List ℕ) → Writer
to_names [] = to_end
to_names (name ∷ names) = to_string name then_write to_names names

-- size[4] Twalk tag[2] fid[4] newfid[4] nwname[2] nwname*(wname[s])
unfoldable pub compose_twalk : TWalk → Option (List ℕ)
unfolding names_length to_names
compose_twalk t =
    let size = 4 + 1 + 2 + 4 + 4 + 2 + names_length t.wname in
    make_buffer size (
      to_header size t.header (
        to_little_e32 t.fid
        then_write to_little_e32 t.newfid
        then_write to_little_e16 t.nwname
        then_write to_names t.wname))

-- `for ; i < walk.Nwname; i++ { walk.Wname[i], buff = fromString(buff) }`
parse_names : ℕ → Parser (List (List ℕ))
parse_names zero = pure []
parse_names (suc n) = do name ← string; names ← parse_names n; pure (name ∷ names)

unfoldable pub parse_twalk : Header → Parser TWalk
unfolding parse_names
parse_twalk h = do
  fid ← u32
  newfid ← u32
  nwname ← u16
  wname ← parse_names nwname
  pure (record { header = h; fid = fid; newfid = newfid; nwname = nwname; wname = wname })

abbrev names_bytes : List (List ℕ) → List ℕ
names_bytes [] = []
names_bytes (name ∷ names) = text name ++ names_bytes names

abbrev pub twalk_body : TWalk → List ℕ
twalk_body t =
    le_bytes 4 t.fid ++ (le_bytes 4 t.newfid ++ (le_bytes 2 t.nwname ++ names_bytes t.wname))

length-names_bytes : (names : List (List ℕ)) → length (names_bytes names) ≡ names_length names
unfolding names_length
length-names_bytes [] = refl
length-names_bytes (name ∷ names) = omega (
  arith,
  length-append (text name) (names_bytes names),
  length-append (le_bytes 2 (length name)) name,
  length-le_bytes 2 (length name),
  length-names_bytes names,
)

length-twalk_body : (t : TWalk) → length (twalk_body t) ≡ 10 + names_length t.wname
length-twalk_body t = simp (length-append, length-le_bytes, length-names_bytes) (omega arith)

names-Fills :
    (names : List (List ℕ)) → All IsText names → Fills (to_names names) (names_bytes names)
unfolding to_names
names-Fills [] h = to_end-Fills
names-Fills (name ∷ names) (h, hs) = Fills-then (to_string-Emits name h) (names-Fills names hs)

-- Compose does not panic, and writes the frame of the body.
pub compose_twalk_lem :
    (t : TWalk) → IsTWalk t → compose_twalk t ≡ some (frame t.header (twalk_body t))
unfolding compose_twalk
compose_twalk_lem t v =
    make_buffer-frame t.header _ (omega (arith, length-twalk_body t)) (omega (arith, v.fits)) (
      Fills-then (to_little_e32-Emits t.fid) (
        Fills-then (to_little_e32-Emits t.newfid)
          (Fills-then (to_little_e16-Emits t.nwname) (names-Fills t.wname v.wname))))

Parses-names :
    (names : List (List ℕ))
    → All IsText names
    → Parses (parse_names (length names)) (names_bytes names) names
unfolding parse_names
Parses-names [] h = record { at = λ rest. refl }
Parses-names (name ∷ names) (h, hs) =
    Parses-bind _ (Parses-string name h) (Parses-map _ (Parses-names names hs))

counted_names :
    (t : TWalk) → IsTWalk t → Parses (parse_names t.nwname) (names_bytes t.wname) t.wname
counted_names t v =
    subst (λ n. Parses (parse_names n) (names_bytes t.wname) t.wname) (sym v.counted)
      (Parses-names t.wname v.wname)

-- The parser reads the body back.
pub Parses-twalk : (t : TWalk) → IsTWalk t → Parses (parse_twalk t.header) (twalk_body t) t
unfolding parse_twalk
Parses-twalk t v = Parses-bind _ (Parses-u32 v.fid) (
    Parses-bind _ (Parses-u32 v.newfid)
      (Parses-bind _ (Parses-u16 v.nwname) (Parses-map _ (counted_names t v))))

pub record RWalk : Type 0 where
  pub header : Header
  pub nwqid : ℕ
  pub wqid : List Qid

pub record IsRWalk (t : RWalk) : Type 0 where
  pub nwqid : IsU16 t.nwqid
  pub counted : t.nwqid ≡ length t.wqid
  pub wqid : All IsQid t.wqid
  pub fits : IsU16 (9 + t.nwqid * 13)

-- The loop over `walk.Wqid`: it composes each qid, copies it and moves on by its length.
to_qids : List Qid → Writer
to_qids [] = to_end
to_qids (qid ∷ qids) = to_qid qid then_write to_qids qids

-- size[4] Rwalk tag[2] nwqid[2] nwqid*(wqid[13]); the length is computed on uint16
unfoldable pub compose_rwalk : RWalk → Option (List ℕ)
unfolding to_qids
compose_rwalk t =
    let size = (9 + t.nwqid * 13 % 2 ^ 16) % 2 ^ 16 in
    make_buffer size (to_header size t.header (to_little_e16 t.nwqid then_write to_qids t.wqid))

-- `for ; i < walk.Nwqid; i++ { buff, err = walk.Wqid[i].parse(buff) … }`
parse_qids : ℕ → Parser (List Qid)
parse_qids zero = pure []
parse_qids (suc n) = do qid ← parse_qid; qids ← parse_qids n; pure (qid ∷ qids)

unfoldable pub parse_rwalk : Header → Parser RWalk
unfolding parse_qids
parse_rwalk h = do
  nwqid ← u16
  wqid ← parse_qids nwqid
  pure (record { header = h; nwqid = nwqid; wqid = wqid })

abbrev qids_bytes : List Qid → List ℕ
qids_bytes [] = []
qids_bytes (qid ∷ qids) = qid_bytes qid ++ qids_bytes qids

abbrev pub rwalk_body : RWalk → List ℕ
rwalk_body t = le_bytes 2 t.nwqid ++ qids_bytes t.wqid

length-qids_bytes : (qids : List Qid) → length (qids_bytes qids) ≡ length qids * 13
length-qids_bytes [] = refl
length-qids_bytes (qid ∷ qids) = omega (
  arith,
  length-append (qid_bytes qid) (qids_bytes qids),
  length-qid_bytes qid,
  length-qids_bytes qids,
)

length-rwalk_body : (t : RWalk) → length (rwalk_body t) ≡ 2 + length t.wqid * 13
length-rwalk_body t = simp (length-append, length-le_bytes, length-qids_bytes) (omega arith)

qids-Fills : (qids : List Qid) → Fills (to_qids qids) (qids_bytes qids)
unfolding to_qids
qids-Fills [] = to_end-Fills
qids-Fills (qid ∷ qids) = Fills-then (to_qid-Emits qid) (qids-Fills qids)

rwalk_size : (n : ℕ) → IsU16 (9 + n * 13) → (9 + n * 13 % 2 ^ 16) % 2 ^ 16 ≡ 9 + n * 13
rwalk_size n h = omega arith

-- Compose does not panic, and writes the frame of the body.
pub compose_rwalk_lem :
    (t : RWalk) → IsRWalk t → compose_rwalk t ≡ some (frame t.header (rwalk_body t))
unfolding compose_rwalk
compose_rwalk_lem t v = rw (rwalk_size t.nwqid v.fits) (
    make_buffer-frame t.header _ (omega (arith, length-rwalk_body t, v.counted))
      (omega (arith, v.fits)) (Fills-then (to_little_e16-Emits t.nwqid) (qids-Fills t.wqid)))

Parses-qids :
    (qids : List Qid) → All IsQid qids → Parses (parse_qids (length qids)) (qids_bytes qids) qids
unfolding parse_qids
Parses-qids [] h = record { at = λ rest. refl }
Parses-qids (qid ∷ qids) (h, hs) =
    Parses-bind _ (Parses-qid qid h) (Parses-map _ (Parses-qids qids hs))

counted_qids : (t : RWalk) → IsRWalk t → Parses (parse_qids t.nwqid) (qids_bytes t.wqid) t.wqid
counted_qids t v =
    subst (λ n. Parses (parse_qids n) (qids_bytes t.wqid) t.wqid) (sym v.counted)
      (Parses-qids t.wqid v.wqid)

-- The parser reads the body back.
pub Parses-rwalk : (t : RWalk) → IsRWalk t → Parses (parse_rwalk t.header) (rwalk_body t) t
unfolding parse_rwalk
Parses-rwalk t v = Parses-bind _ (Parses-u16 v.nwqid) (Parses-map _ (counted_qids t v))
