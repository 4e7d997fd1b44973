-- ===== src/Proto/Stat.antt =====
-- proto/stat.go: Stat, the directory entry.
pub mod Entries
use go9p.Base.{
  ℕ, ◌+◌, ◌-◌, ◌%◌, ◌^◌, ◌≤◌, List, ◌++◌, length, Option, some, ◌≡◌, arith, length-append,
  mod-eq_of_lt, sym,
}
use go9p.Proto.Marshal.{le_bytes, IsU16, IsU32, IsU64}
use go9p.Proto.Marshal.Cursor.{
  Writer, ◌then_write◌, to_little_e16, to_little_e32, to_little_e64, to_string, make_buffer, Fills,
  Fills-then, Fills-Emits, to_little_e16-Emits, to_little_e32-Emits, to_little_e64-Emits,
  to_string-Emits, make_buffer-Fills, length-le_bytes, text,
}
use go9p.Proto.Marshal.Parser.{
  Parser, u16, u32, u64, string, pure, ◌>>=◌, Parses, Parses-bind, Parses-map, Parses-u16,
  Parses-u32, Parses-u64, Parses-string,
}
use go9p.Proto.Qid.{
  Qid, IsQid, parse_qid, qid_bytes, length-qid_bytes, to_qid, to_qid-Emits, Parses-qid,
}

pub record Stat : Type 0 where
  pub type : ℕ
  pub dev : ℕ
  pub qid : Qid
  pub mode : ℕ
  pub atime : ℕ
  pub mtime : ℕ
  pub length : ℕ
  pub name : List ℕ
  pub uid : List ℕ
  pub gid : List ℕ
  pub muid : List ℕ

-- ComposeLength before its conversion to uint16.
abbrev pub stat_length : Stat → ℕ
stat_length s =
    2
    + 2
    + 4
    + 13
    + 4
    + 4
    + 4
    + 8
    + (2 + length s.name)
    + (2 + length s.uid)
    + (2 + length s.gid)
    + (2 + length s.muid)

unfoldable pub compose_length : Stat → ℕ
compose_length s = stat_length s % 2 ^ 16

-- A stat whose numbers fit their fields and whose length fits its 16 bits.
pub record IsStat (s : Stat) : Type 0 where
  pub type : IsU16 s.type
  pub dev : IsU32 s.dev
  pub qid : IsQid s.qid
  pub mode : IsU32 s.mode
  pub atime : IsU32 s.atime
  pub mtime : IsU32 s.mtime
  pub length : IsU64 s.length
  pub fits : IsU16 (stat_length s)

stat_writer : ℕ → Stat → Writer
stat_writer size s =
    to_little_e16 size
    then_write to_little_e16 s.type
    then_write to_little_e32 s.dev
    then_write to_qid s.qid
    then_write to_little_e32 s.mode
    then_write to_little_e32 s.atime
    then_write to_little_e32 s.mtime
    then_write to_little_e64 s.length
    then_write to_string s.name
    then_write to_string s.uid
    then_write to_string s.gid
    then_write to_string s.muid

-- `length-2` is a subtraction on uint16.
unfoldable pub compose_stat : Stat → Option (List ℕ)
unfolding compose_length stat_writer
compose_stat s =
    make_buffer (compose_length s) (stat_writer ((compose_length s + 2 ^ 16 - 2) % 2 ^ 16) s)

-- The length that opens the entry is thrown away.
unfoldable pub parse_stat : Parser Stat
parse_stat = do
  _ ← u16
  type ← u16
  dev ← u32
  qid ← parse_qid
  mode ← u32
  atime ← u32
  mtime ← u32
  len ← u64
  name ← string
  uid ← string
  gid ← string
  muid ← string
  pure (record {
    type = type;
    dev = dev;
    qid = qid;
    mode = mode;
    atime = atime;
    mtime = mtime;
    length = len;
    name = name;
    uid = uid;
    gid = gid;
    muid = muid;
  })

-- size[2] type[2] dev[4] qid[13] mode[4] atime[4] mtime[4] length[8] name[s] uid[s] gid[s] muid[s]
abbrev pub stat_bytes : Stat → List ℕ
stat_bytes s =
    le_bytes 2 (stat_length s - 2)
    ++ (le_bytes 2 s.type
        ++ (le_bytes 4 s.dev
            ++ (qid_bytes s.qid
                ++ (le_bytes 4 s.mode
                    ++ (le_bytes 4 s.atime
                        ++ (le_bytes 4 s.mtime
                            ++ (le_bytes 8 s.length
                                ++ (text s.name
                                    ++ (text s.uid ++ (text s.gid ++ text s.muid))))))))))

pub length-stat_bytes : (s : Stat) → length (stat_bytes s) ≡ stat_length s
length-stat_bytes s = simp (length-append, length-le_bytes) (omega arith)

pub compose_length_lem : (s : Stat) → IsU16 (stat_length s) → compose_length s ≡ stat_length s
unfolding compose_length
compose_length_lem s h = mod-eq_of_lt h

size_field : (n : ℕ) → 2 ≤ n → IsU16 n → (n + 2 ^ 16 - 2) % 2 ^ 16 ≡ n - 2
size_field n lo hi = omega arith

stat-Fills :
    (s : Stat) → IsU16 (stat_length s) → Fills (stat_writer (stat_length s - 2) s) (stat_bytes s)
unfolding stat_writer
stat-Fills s h = Fills-then (to_little_e16-Emits _) (
    Fills-then (to_little_e16-Emits s.type) (
      Fills-then (to_little_e32-Emits s.dev) (
        Fills-then (to_qid-Emits s.qid) (
          Fills-then (to_little_e32-Emits s.mode) (
            Fills-then (to_little_e32-Emits s.atime) (
              Fills-then (to_little_e32-Emits s.mtime) (
                Fills-then (to_little_e64-Emits s.length) (
                  Fills-then (to_string-Emits s.name (omega arith)) (
                    Fills-then (to_string-Emits s.uid (omega arith)) (
                      Fills-then (to_string-Emits s.gid (omega arith))
                        (Fills-Emits (to_string-Emits s.muid (omega arith)))))))))))))

pub compose_stat_lem : (s : Stat) → IsU16 (stat_length s) → compose_stat s ≡ some (stat_bytes s)
unfolding compose_stat
compose_stat_lem s h = rw (mod-eq_of_lt h) (
    rw (size_field (stat_length s) (omega arith) h)
      (make_buffer-Fills (stat_length s) (sym (length-stat_bytes s)) (stat-Fills s h)))

pub Parses-stat : {s : Stat} → IsStat s → Parses parse_stat (stat_bytes s) s
unfolding parse_stat
Parses-stat v = Parses-bind _ (Parses-u16 (omega (arith, v.fits))) (
    Parses-bind _ (Parses-u16 v.type) (
      Parses-bind _ (Parses-u32 v.dev) (
        Parses-bind _ (Parses-qid _ v.qid) (
          Parses-bind _ (Parses-u32 v.mode) (
            Parses-bind _ (Parses-u32 v.atime) (
              Parses-bind _ (Parses-u32 v.mtime) (
                Parses-bind _ (Parses-u64 v.length) (
                  Parses-bind _ (Parses-string _ (omega (arith, v.fits))) (
                    Parses-bind _ (Parses-string _ (omega (arith, v.fits))) (
                      Parses-bind _ (Parses-string _ (omega (arith, v.fits)))
                        (Parses-map _ (Parses-string _ (omega (arith, v.fits))))))))))))))
