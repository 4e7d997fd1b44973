-- ===== src/Proto/Qid.antt =====
-- proto/fcall.go: Qid.
use go9p.Base.{ℕ, List, [], ◌∷◌, ◌++◌, length, Option, none, some, ◌≡◌, arith, length-append}
use go9p.Proto.Marshal.{le_bytes, IsByte, IsU32, IsU64}
use go9p.Proto.Marshal.Cursor.{
  Writer, ◌then_write◌, to_little_e32, to_little_e64, to_byte, to_copy, make_buffer, Emits,
  Fills-then, Fills-Emits, to_little_e32-Emits, to_little_e64-Emits, to_byte-Emits,
  make_buffer-Fills, to_copy-Emits, length-le_bytes,
}
use go9p.Proto.Marshal.Parser.{
  err, Parser, u32, u64, pure, ◌>>=◌, end_of_buffer, Parses, Parses-bind, Parses-map, Parses-u32,
  Parses-u64,
}

pub record Qid : Type 0 where
  pub qtype : ℕ
  pub vers : ℕ
  pub uid : ℕ

pub record IsQid (q : Qid) : Type 0 where
  pub qtype : IsByte q.qtype
  pub vers : IsU32 q.vers
  pub uid : IsU64 q.uid

unfoldable pub compose_qid : Qid → Option (List ℕ)
compose_qid q =
    make_buffer 13 (to_byte q.qtype then_write to_little_e32 q.vers then_write to_little_e64 q.uid)

unfoldable pub qid_fields : ℕ → Parser Qid
qid_fields qtype = do vers ← u32; uid ← u64; pure (record { qtype = qtype; vers = vers; uid = uid })

-- Only an empty buffer is an error: the numbers of a short one read as 0.
unfoldable pub parse_qid : Parser Qid
unfolding qid_fields
parse_qid [] = err end_of_buffer
parse_qid (b ∷ buff) = qid_fields b buff

-- qid[13]
abbrev pub qid_bytes : Qid → List ℕ
qid_bytes q = (q.qtype ∷ []) ++ (le_bytes 4 q.vers ++ le_bytes 8 q.uid)

pub length-qid_bytes : (q : Qid) → length (qid_bytes q) ≡ 13
length-qid_bytes q = omega (
  arith,
  length-append (le_bytes 4 q.vers) (le_bytes 8 q.uid),
  length-le_bytes 4 q.vers,
  length-le_bytes 8 q.uid,
)

pub compose_qid_lem : (q : Qid) → compose_qid q ≡ some (qid_bytes q)
unfolding compose_qid
compose_qid_lem q = make_buffer-Fills 13 (omega (arith, length-qid_bytes q)) (
    Fills-then (to_byte-Emits q.qtype)
      (Fills-then (to_little_e32-Emits q.vers) (Fills-Emits (to_little_e64-Emits q.uid))))

Parses-qid_fields :
    (q : Qid) → IsQid q → Parses (qid_fields q.qtype) (le_bytes 4 q.vers ++ le_bytes 8 q.uid) q
unfolding qid_fields
Parses-qid_fields q v = Parses-bind _ (Parses-u32 v.vers) (Parses-map _ (Parses-u64 v.uid))

pub Parses-qid : (q : Qid) → IsQid q → Parses parse_qid (qid_bytes q) q
unfolding parse_qid
Parses-qid q v = record { at = λ rest. (Parses-qid_fields q v).at rest }

-- `qidbuff := qid.Compose(); copy(buffer, qidbuff); buffer = buffer[len(qidbuff):]`
unfoldable pub to_qid : Qid → Writer
to_qid q buff = elim (compose_qid q) [ none ↦ none | some qidbuff ↦ to_copy qidbuff buff ]

pub to_qid-Emits : (q : Qid) → Emits (to_qid q) (qid_bytes q)
unfolding to_qid
to_qid-Emits q = record {
  at = λ buff h. rw (compose_qid_lem q, to_qid) ((to_copy-Emits (qid_bytes q)).at buff h);
}
