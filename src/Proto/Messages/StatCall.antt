-- ===== src/Proto/Messages/StatCall.antt =====
-- proto/stat.go: TStat and RStat
use go9p.Base.{
  ℕ, ◌+◌, ◌%◌, ◌^◌, List, ◌++◌, length, Option, some, ◌≡◌, arith, length-append, mod-eq_of_lt,
}
use go9p.Proto.Marshal.{le_bytes, IsU16, IsU32}
use go9p.Proto.Marshal.Cursor.{
  ◌then_write◌, to_little_e16, to_little_e32, to_composed_last, make_buffer, Fills-then,
  Fills-Emits, to_little_e16-Emits, to_little_e32-Emits, to_composed_last-Fills, length-le_bytes,
}
use go9p.Proto.Marshal.Parser.{
  Parser, u16, u32, pure, ◌>>=◌, Parses, Parses-bind, Parses-map, Parses-u16, Parses-u32,
}
use go9p.Proto.Header.{Header, to_header, frame, make_buffer-frame}
use go9p.Proto.Stat.{
  Stat, IsStat, stat_length, compose_length, compose_length_lem, compose_stat, compose_stat_lem,
  parse_stat, Parses-stat, stat_bytes,
}

pub record TStat : Type 0 where
  pub header : Header
  pub fid : ℕ

pub record IsTStat (t : TStat) : Type 0 where
  pub fid : IsU32 t.fid

-- size[4] Tstat tag[2] fid[4]
unfoldable pub compose_tstat : TStat → Option (List ℕ)
compose_tstat t =
    let size = 4 + 1 + 2 + 4 in make_buffer size (to_header size t.header (to_little_e32 t.fid))

unfoldable pub parse_tstat : Header → Parser TStat
parse_tstat h = do fid ← u32; pure (record { header = h; fid = fid })

abbrev pub tstat_body : TStat → List ℕ
tstat_body t = le_bytes 4 t.fid

length-tstat_body : (t : TStat) → length (tstat_body t) ≡ 4
length-tstat_body t = length-le_bytes 4 t.fid

-- Compose does not panic, and writes the frame of the body.
pub compose_tstat_lem :
    (t : TStat) → IsTStat t → compose_tstat t ≡ some (frame t.header (tstat_body t))
unfolding compose_tstat
compose_tstat_lem t v =
    make_buffer-frame t.header _ (omega (arith, length-tstat_body t)) (omega (arith))
      (Fills-Emits (to_little_e32-Emits t.fid))

-- The parser reads the body back.
pub Parses-tstat : (t : TStat) → IsTStat t → Parses (parse_tstat t.header) (tstat_body t) t
unfolding parse_tstat
Parses-tstat t v = Parses-map _ (Parses-u32 v.fid)

pub record RStat : Type 0 where
  pub header : Header
  pub stat : Stat

pub record IsRStat (t : RStat) : Type 0 where
  pub stat : IsStat t.stat
  pub fits : IsU16 (9 + stat_length t.stat)

-- size[4] Rstat tag[2] stat[n]; the length is computed on uint16
unfoldable pub compose_rstat : RStat → Option (List ℕ)
compose_rstat t =
    let size = (9 + compose_length t.stat) % 2 ^ 16 in
    make_buffer size (
      to_header size t.header
        (to_little_e16 (compose_length t.stat) then_write to_composed_last (compose_stat t.stat)))

-- The length that stands before the stat is thrown away.
unfoldable pub parse_rstat : Header → Parser RStat
parse_rstat h = do _ ← u16; stat ← parse_stat; pure (record { header = h; stat = stat })

abbrev pub rstat_body : RStat → List ℕ
rstat_body t = le_bytes 2 (stat_length t.stat) ++ (stat_bytes t.stat)

length-rstat_body : (t : RStat) → length (rstat_body t) + 7 ≡ 9 + stat_length t.stat
length-rstat_body t = simp (length-append, length-le_bytes) (omega arith)

-- Compose does not panic, and writes the frame of the body.
pub compose_rstat_lem :
    (t : RStat) → IsRStat t → compose_rstat t ≡ some (frame t.header (rstat_body t))
unfolding compose_rstat
compose_rstat_lem t v =
    rw (compose_length_lem t.stat v.stat.fits, mod-eq_of_lt v.fits)
      (make_buffer-frame t.header _ (omega (arith, length-rstat_body t)) (omega (arith, v.fits)) (
        Fills-then (to_little_e16-Emits _)
          (to_composed_last-Fills (compose_stat_lem t.stat v.stat.fits))))

-- The parser reads the body back.
pub Parses-rstat : (t : RStat) → IsRStat t → Parses (parse_rstat t.header) (rstat_body t) t
unfolding parse_rstat
Parses-rstat t v = Parses-bind _ (Parses-u16 v.stat.fits) (Parses-map _ (Parses-stat v.stat))
