-- ===== src/Proto/Messages/Wstat.antt =====
-- proto/wstat.go
use go9p.Base.{
  ℕ, ◌+◌, ◌%◌, ◌^◌, List, [], ◌++◌, length, Option, some, ◌≡◌, refl, arith, length-append,
  mod-eq_of_lt,
}
use go9p.Proto.Marshal.{le_bytes, IsU16, IsU32}
use go9p.Proto.Marshal.Cursor.{
  ◌then_write◌, to_little_e16, to_little_e32, to_end, to_composed_last, make_buffer, Fills-then,
  to_little_e16-Emits, to_little_e32-Emits, to_end-Fills, to_composed_last-Fills, length-le_bytes,
}
use go9p.Proto.Marshal.Parser.{
  Parser, u16, u32, pure, ◌>>=◌, Parses, Parses-bind, Parses-map, Parses-u16, Parses-u32,
}
use go9p.Proto.Header.{Header, to_header, frame, make_buffer-frame}
use go9p.Proto.Stat.{
  Stat, IsStat, stat_length, compose_length, compose_length_lem, compose_stat, compose_stat_lem,
  parse_stat, Parses-stat, stat_bytes,
}

pub record TWstat : Type 0 where
  pub header : Header
  pub fid : ℕ
  pub stat : Stat

pub record IsTWstat (t : TWstat) : Type 0 where
  pub fid : IsU32 t.fid
  pub stat : IsStat t.stat
  pub fits : IsU16 (13 + stat_length t.stat)

-- size[4] Twstat tag[2] fid[4] stat[n]; the length is computed on uint16
unfoldable pub compose_twstat : TWstat → Option (List ℕ)
compose_twstat t =
    let size = (13 + compose_length t.stat) % 2 ^ 16 in
    make_buffer size (
      to_header size t.header (
        to_little_e32 t.fid
        then_write to_little_e16 (compose_length t.stat)
        then_write to_composed_last (compose_stat t.stat)))

-- The length that stands before the stat is thrown away.
unfoldable pub parse_twstat : Header → Parser TWstat
parse_twstat h = do
  fid ← u32
  _ ← u16
  stat ← parse_stat
  pure (record { header = h; fid = fid; stat = stat })

abbrev pub twstat_body : TWstat → List ℕ
twstat_body t = le_bytes 4 t.fid ++ (le_bytes 2 (stat_length t.stat) ++ (stat_bytes t.stat))

length-twstat_body : (t : TWstat) → length (twstat_body t) + 7 ≡ 13 + stat_length t.stat
length-twstat_body t = simp (length-append, length-le_bytes) (omega arith)

-- Compose does not panic, and writes the frame of the body.
pub compose_twstat_lem :
    (t : TWstat) → IsTWstat t → compose_twstat t ≡ some (frame t.header (twstat_body t))
unfolding compose_twstat
compose_twstat_lem t v =
    rw (compose_length_lem t.stat v.stat.fits, mod-eq_of_lt v.fits)
      (make_buffer-frame t.header _ (omega (arith, length-twstat_body t)) (omega (arith, v.fits)) (
        Fills-then (to_little_e32-Emits t.fid) (
          Fills-then (to_little_e16-Emits _)
            (to_composed_last-Fills (compose_stat_lem t.stat v.stat.fits)))))

-- The parser reads the body back.
pub Parses-twstat : (t : TWstat) → IsTWstat t → Parses (parse_twstat t.header) (twstat_body t) t
unfolding parse_twstat
Parses-twstat t v =
    Parses-bind _ (Parses-u32 v.fid)
      (Parses-bind _ (Parses-u16 v.stat.fits) (Parses-map _ (Parses-stat v.stat)))

pub record RWstat : Type 0 where
  pub header : Header

-- size[4] Rwstat tag[2]
unfoldable pub compose_rwstat : RWstat → Option (List ℕ)
compose_rwstat t = let size = 4 + 1 + 2 in make_buffer size (to_header size t.header (to_end))

unfoldable pub parse_rwstat : Header → Parser RWstat
parse_rwstat h = pure (record { header = h })

abbrev pub rwstat_body : RWstat → List ℕ
rwstat_body t = []

pub compose_rwstat_lem : (t : RWstat) → compose_rwstat t ≡ some (frame t.header (rwstat_body t))
unfolding compose_rwstat
compose_rwstat_lem t = make_buffer-frame t.header _ (omega arith) (omega arith) to_end-Fills

pub Parses-rwstat : (t : RWstat) → Parses (parse_rwstat t.header) (rwstat_body t) t
unfolding parse_rwstat
Parses-rwstat t = record { at = λ rest. refl }
