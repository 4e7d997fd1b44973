-- ===== src/Fs/Static/File.antt =====
-- StaticFile of fs/static.go. The parent of the embedded BaseFile is kept by the tree.
pub mod Contents
pub mod Chunks
use go9p.Base.{
  ℕ, ◌+◌, ◌-◌, ◌%◌, ◌^◌, List, [], ◌++◌, length, take, drop, replicate, ltb, leb, ◌==◌, ◌||◌,
  if◌then◌else◌, bit_and,
}
use go9p.Proto.Stat.{Stat}
use go9p.Fs.Permissions.{otrunc}
use go9p.Fs.Result.{Result, ok, err, panic}

pub record StaticFile : Type 0 where
  pub f_stat : Stat
  pub contents : List ℕ

-- `xs[lo:hi]`; no slice below goes past the length, where the capacity would decide.
slice : List ℕ → ℕ → ℕ → Result (List ℕ)
slice xs lo hi = if ltb hi lo || ltb (length xs) hi then panic else ok (take (hi - lo) (drop lo xs))

unfoldable pub new_static_file : Stat → List ℕ → StaticFile
new_static_file s bytes = record {
  f_stat = record s { length = length bytes % 2 ^ 64 };
  contents = bytes;
}

-- Stat writes the length back before it returns the stat.
unfoldable pub static_file_stat : StaticFile → Stat × StaticFile
static_file_stat f =
    let f' = record f { f_stat = record f.f_stat { length = length f.contents % 2 ^ 64 } } in
    (f'.f_stat, f')

unfoldable pub static_file_write_stat : StaticFile → Stat → StaticFile
static_file_write_stat f s = record f { f_stat = s }

unfoldable pub static_file_open : StaticFile → ℕ → StaticFile
static_file_open f omode = if ltb 0 (bit_and omode otrunc) then record f { contents = [] } else f

unfoldable pub static_file_read : StaticFile → ℕ → ℕ → Result (List ℕ)
unfolding slice
static_file_read f offset count =
    let flen = length f.contents in
    if leb flen offset
    then ok []
    else let count' = if ltb flen ((offset + count) % 2 ^ 64) then flen - offset else count in
      slice f.contents offset ((offset + count') % 2 ^ 64)

-- The contents, grown with zeros to `newlen`; `make` panics beyond the runtime's limit.
grow : ℕ → List ℕ → ℕ → Result (List ℕ)
grow alloc_limit bytes newlen =
    if ltb (length bytes) newlen
    then (if ltb alloc_limit (newlen - length bytes)
        then panic
        else ok (bytes ++ replicate (newlen - length bytes) 0))
    else ok bytes

-- `copy(f.Data[offset:offset+count], data)`
overwrite : List ℕ → ℕ → ℕ → List ℕ → Result (List ℕ)
overwrite bytes offset end_ source =
    if ltb end_ offset || ltb (length bytes) end_
    then panic
    else ok (
        take offset bytes
        ++ (take (end_ - offset) source
            ++ drop (offset + length (take (end_ - offset) source)) bytes))

written : StaticFile → ℕ → List ℕ → Result (List ℕ) → Result (ℕ × StaticFile)
written f newlen source (ok bytes) =
    let flen = length f.contents in
    ok (
      length source % 2 ^ 32,
      record {
        f_stat = (if ltb flen newlen then record f.f_stat { length = newlen } else f.f_stat);
        contents = bytes;
      },
    )
written f newlen source (err e) = err e
written f newlen source panic = panic

overwrite_grown : ℕ → ℕ → List ℕ → Result (List ℕ) → Result (List ℕ)
unfolding overwrite
overwrite_grown offset newlen source (ok bytes) = overwrite bytes offset newlen source
overwrite_grown offset newlen source (err e) = err e
overwrite_grown offset newlen source panic = panic

-- `alloc_limit` is the largest slice that the Go runtime allocates.
unfoldable pub static_file_write : ℕ → StaticFile → ℕ → List ℕ → Result (ℕ × StaticFile)
unfolding grow overwrite_grown written
static_file_write alloc_limit f offset source =
    let newlen = (offset + length source) % 2 ^ 64 in
    written f newlen source
      (overwrite_grown offset newlen source (grow alloc_limit f.contents newlen))
