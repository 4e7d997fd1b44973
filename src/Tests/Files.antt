-- ===== src/Tests/Files.antt =====
-- A file in memory, and the permission bits of a node.
use go9p.Base.{
  ℕ, ◌^◌, ◌<◌, List, [], ◌∷◌, ◌++◌, none, some, true, bytes, ◌≡◌, refl, arith, length, get_elem?,
  All,
}
use go9p.Base.{◌≢◌}
use go9p.Proto.Stat.{Stat, IsStat}
use go9p.Proto.Stat.Entries.{entries, parse_stats, parse_stats-entries, parse_stats-ne-none}
use go9p.Proto.Marshal.Parser.{Outcome}
use go9p.Fs.Result.{ok}
use go9p.Fs.Permissions.{owrite, open_permission, user_relation}
use go9p.Fs.Permissions.Bits.{open_permission-grants}
use go9p.Fs.Static.File.{StaticFile, static_file_read, static_file_write}
use go9p.Fs.Static.File.Contents.{
  byte_after_write, static_file_read-take, static_file_write-bytes, static_file_read-write,
}

-- A file of the owner glenda and her group, of the given name, mode and length.
abbrev pub stat_of : List ℕ → ℕ → ℕ → Stat
stat_of name mode size = record {
  type = 0;
  dev = 0;
  qid = record { qtype = 0; vers = 0; uid = 5 };
  mode = mode;
  atime = 0;
  mtime = 9;
  length = size;
  name = name;
  uid = bytes "glenda";
  gid = bytes "glenda";
  muid = bytes "glenda";
}

abbrev notes : StaticFile
notes = record { f_stat = stat_of (bytes "notes") 0x1A4 5; contents = bytes "hello" }

-- A limit for `make` far above every size here.
abbrev limit : ℕ
limit = 2 ^ 40

static_file_read-take_example : static_file_read notes 2 10 ≡ ok (bytes "llo")
static_file_read-take_example = static_file_read-take notes 2 10 (omega arith) (omega arith)

static_file_write-bytes_example :
    (f' : StaticFile) × (static_file_write limit notes 7 (bytes "ab") ≡ ok (2, f'))
    × ((i : ℕ) → get_elem? f'.contents i ≡ byte_after_write (bytes "hello") 7 (bytes "ab") i)
static_file_write-bytes_example =
    static_file_write-bytes limit notes 7 (bytes "ab") (omega arith) (omega arith) (omega arith)

abbrev longer_notes : StaticFile
longer_notes = record {
  f_stat = stat_of (bytes "notes") 0x1A4 9;
  contents = bytes "hello" ++ (0 ∷ 0 ∷ bytes "ab");
}

write_past_the_end : static_file_write limit notes 7 (bytes "ab") ≡ ok (2, longer_notes)
unfolding static_file_write
write_past_the_end = refl

static_file_read-write_example : static_file_read longer_notes 7 2 ≡ ok (bytes "ab")
static_file_read-write_example =
    static_file_read-write limit notes longer_notes 7 2 (bytes "ab") (omega arith) (omega arith)
      (omega arith) (omega arith) write_past_the_end

-- Mode 0644: glenda may write, another user may not.
open_permission-grants_example :
    open_permission (stat_of (bytes "notes") 0x1A4 5) (bytes "glenda") owrite ≡ true
unfolding user_relation
open_permission-grants_example =
    open_permission-grants (stat_of (bytes "notes") 0x1A4 5) (bytes "glenda") owrite

abbrev pub two_stats : List Stat
two_stats = stat_of (bytes "notes") 0x1A4 5 ∷ stat_of (bytes "todo") 0x1A4 0 ∷ []

stat_of-IsStat :
    (name : List ℕ) (mode size : ℕ)
    → length name < 100
    → mode < 2 ^ 32
    → size < 2 ^ 64
    → IsStat (stat_of name mode size)
stat_of-IsStat name mode size hn hm hs = record {
  type = omega arith;
  dev = omega arith;
  qid = record { qtype = omega arith; vers = omega arith; uid = omega arith };
  mode = hm;
  atime = omega arith;
  mtime = omega arith;
  length = hs;
  fits = omega (arith, hn);
}

pub two_stats-IsStat : All IsStat two_stats
two_stats-IsStat = (
  stat_of-IsStat (bytes "notes") 0x1A4 5 (omega arith) (omega arith) (omega arith),
  (stat_of-IsStat (bytes "todo") 0x1A4 0 (omega arith) (omega arith) (omega arith), tt),
)

parse_stats-entries_example : parse_stats (entries two_stats) ≡ some (Outcome.ok two_stats)
parse_stats-entries_example = parse_stats-entries two_stats two_stats-IsStat

parse_stats-ne-none_example : parse_stats (1 ∷ 2 ∷ []) ≢ none
parse_stats-ne-none_example = parse_stats-ne-none (1 ∷ 2 ∷ [])
