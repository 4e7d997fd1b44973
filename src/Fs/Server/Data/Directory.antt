-- ===== src/Fs/Server/Data/Directory.antt =====
-- Reads of a directory: whole entries, from where the last read ended.
use go9p.Base.{
  ℕ, ◌+◌, ◌-◌, ◌%◌, ◌^◌, ◌≤◌, ◌<◌, List, [], ◌∷◌, ◌++◌, length, length-append, Option, none, some,
  not, Bool, true, false, ltb, leb, if◌then◌else◌, ◌≡◌, refl, arith, ◌∙◌, ap, sym, append_assoc,
  append-nil, mod-eq_of_lt, All, Bool-cases, inl, inr, ltb-false, ltb-true, leb→le,
}
use go9p.Proto.Stat.{
  Stat, IsStat, compose_length_lem, compose_stat_lem, stat_length, stat_bytes, length-stat_bytes,
}
use go9p.Proto.Stat.Entries.{entries}
use go9p.Proto.Messages.Read.{TRead}
use go9p.Fs.Server.Data.{
  from_offset, take_entries, append_entry, take_entry, dir_entries, read_dir, dir_start,
  dir_entries, data_reply,
}

-- The entries from the front of a list that fit in `room` bytes.
unfoldable pub fitting : ℕ → List Stat → List Stat
fitting room [] = []
fitting room (st ∷ sts) =
    let rest = fitting (room - stat_length st) sts in
    if leb (stat_length st) room then st ∷ rest else []

pub length-entries_cons :
    (st : Stat) (sts : List Stat)
    → length (entries (st ∷ sts)) ≡ stat_length st + length (entries sts)
length-entries_cons st sts =
    omega (arith, length-append (stat_bytes st) (entries sts), length-stat_bytes st)

mod_small : (a b : ℕ) → a + b < 2 ^ 64 → (a + b) % 2 ^ 64 ≡ a + b
mod_small a b h = mod-eq_of_lt h

-- What the first loop leaves when the offset is at the start of `sts`.
unfoldable rest_of : List Stat → Option (List Stat)
rest_of [] = none
rest_of (st ∷ sts) = some (st ∷ sts)

from_offset_here :
    (st : Stat) (sts : List Stat) (acc : ℕ)
    → IsStat st
    → acc + stat_length st < 2 ^ 64
    → from_offset acc acc (st ∷ sts) ≡ some (st ∷ sts)
unfolding from_offset
from_offset_here st sts acc v h = rw (compose_length_lem st v.fits) (
    rw (mod_small acc (stat_length st) h)
      (rw (ltb-true acc (acc + stat_length st) (omega arith)) refl))

from_offset_past :
    (st : Stat) (sts : List Stat) (offset acc : ℕ)
    → IsStat st
    → acc + stat_length st ≤ offset
    → offset < 2 ^ 64
    → from_offset offset acc (st ∷ sts) ≡ from_offset offset (acc + stat_length st) sts
unfolding from_offset
from_offset_past st sts offset acc v le h = rw (compose_length_lem st v.fits) (
    rw (mod_small acc (stat_length st) (omega arith))
      (rw (ltb-false offset (acc + stat_length st) le) refl))

from_offset-entries :
    (pre sts : List Stat) (acc : ℕ)
    → All IsStat pre
    → All IsStat sts
    → acc + length (entries pre) + length (entries sts) < 2 ^ 64
    → from_offset (acc + length (entries pre)) acc (pre ++ sts) ≡ rest_of sts
unfolding rest_of from_offset
from_offset-entries [] [] acc hp hs h = refl
from_offset-entries [] (st ∷ sts) acc hp (v, vs) h =
    let zero_more : acc + 0 ≡ acc = omega arith in
    ap (λ n. from_offset n acc (st ∷ sts)) zero_more
    ∙ from_offset_here st sts acc v (omega (arith, length-entries_cons st sts))
from_offset-entries (p ∷ pre) sts acc (v, vs) hs h =
    let len = length-entries_cons p pre in
    ap (λ n. from_offset n acc ((p ∷ pre) ++ sts)) (omega arith)
    ∙ from_offset_past p (pre ++ sts) (acc + stat_length p + length (entries pre)) acc v
        (omega arith) (omega arith)
    ∙ from_offset-entries pre sts (acc + stat_length p) vs hs (omega arith)

ltb-sum : (a b c : ℕ) → b ≤ a → ltb a (b + c) ≡ not (leb c (a - b))
ltb-sum a b c h = ground arith

take_entry-fitting :
    (b : Bool) (contents : List ℕ) (st : Stat) (rest : List Stat) (next : List ℕ → Option (List ℕ))
    → (b ≡ true
        → next (contents ++ stat_bytes st) ≡ some ((contents ++ stat_bytes st) ++ entries rest))
    → take_entry (not b) contents (some (contents ++ stat_bytes st)) next
      ≡ some (contents ++ entries (if b then st ∷ rest else []))
unfolding take_entry
take_entry-fitting true contents st rest next h =
    h refl ∙ ap some (append_assoc contents (stat_bytes st) (entries rest))
take_entry-fitting false contents st rest next h = ap some (sym (append-nil contents))

take_entries-fitting :
    (count : ℕ) (contents : List ℕ) (sts : List Stat)
    → All IsStat sts
    → length contents ≤ count
    → count + 2 ^ 17 ≤ 2 ^ 32
    → take_entries count contents sts
      ≡ some (contents ++ entries (fitting (count - length contents) sts))
unfolding take_entries append_entry fitting
take_entries-fitting count contents [] h le small = ap some (sym (append-nil contents))
take_entries-fitting count contents (st ∷ sts) (v, vs) le small =
    let room = count - length contents in
    let more = contents ++ stat_bytes st in
    let len = length-append contents (stat_bytes st) in
    let len_st = length-stat_bytes st in
    let next : leb (stat_length st) room ≡ true
        → take_entries count more sts
          ≡ some (more ++ entries (fitting (room - stat_length st) sts)) =
      λ fits.
        let le' = leb→le (stat_length st) room fits in
        take_entries-fitting count more sts vs (omega arith) small
        ∙ ap (λ n. some (more ++ entries (fitting n sts))) (omega arith) in
    rw (compose_length_lem st v.fits) (
      rw (compose_stat_lem st v.fits) (
        rw (mod-eq_of_lt {n = length contents} {m = 2 ^ 32} (omega arith)) (
          rw
            (mod-eq_of_lt {n = length contents + stat_length st} {m = 2 ^ 32}
              (omega (arith, v.fits)))
            (rw (ltb-sum count (length contents) (stat_length st) le) (
              take_entry-fitting (leb (stat_length st) room) contents st
                (fitting (room - stat_length st) sts) (λ c. take_entries count c sts) next)))))

dir_start-fitting :
    (t : TRead) (sts : List Stat)
    → All IsStat sts
    → t.count + 2 ^ 17 ≤ 2 ^ 32
    → dir_start t (rest_of sts) ≡ data_reply t.header.tag (entries (fitting t.count sts))
unfolding dir_start dir_entries rest_of fitting
dir_start-fitting t [] hs count = refl
dir_start-fitting t (st ∷ sts) hs count =
    let all : t.count - 0 ≡ t.count = omega arith in
    ap (dir_entries t.header.tag) (
      take_entries-fitting t.count [] (st ∷ sts) hs (omega arith) count
      ∙ ap (λ n. some (entries (fitting n (st ∷ sts)))) all)

-- A read of a directory at the end of some of its entries replies the entries that come next, whole
-- and in order, as many as fit the count; past the last entry it replies no bytes. All stats are
-- valid, their entries have less than 2^64 bytes, and the count is at most
-- 2^32 - 2^17.
pub read_dir-fitting :
    (t : TRead) (pre sts : List Stat)
    → All IsStat pre
    → All IsStat sts
    → length (entries pre) + length (entries sts) < 2 ^ 64
    → t.count + 2 ^ 17 ≤ 2 ^ 32
    → t.offset ≡ length (entries pre)
    → read_dir t (pre ++ sts) ≡ data_reply t.header.tag (entries (fitting t.count sts))
unfolding read_dir dir_start
read_dir-fitting t pre sts hp hs small count at =
    let from_zero : t.offset ≡ 0 + length (entries pre) = omega arith in
    ap (λ n. dir_start t (from_offset n 0 (pre ++ sts))) from_zero
    ∙ ap (dir_start t) (from_offset-entries pre sts 0 hp hs (omega arith))
    ∙ dir_start-fitting t sts hs count

pub length-fitting : (room : ℕ) (sts : List Stat) → length (entries (fitting room sts)) ≤ room
unfolding fitting
length-fitting room [] = omega arith
length-fitting room (st ∷ sts) = elim (Bool-cases (leb (stat_length st) room)) [
  | inl fits ↦ rw fits (
      let le = leb→le (stat_length st) room fits in
      let rest = length-fitting (room - stat_length st) sts in
      omega (arith, length-entries_cons st (fitting (room - stat_length st) sts)))
  | inr over ↦ rw over (omega arith)
]

-- The entries that do not fit.
unfoldable pub left_over : ℕ → List Stat → List Stat
left_over room [] = []
left_over room (st ∷ sts) =
    let rest = left_over (room - stat_length st) sts in
    if leb (stat_length st) room then rest else st ∷ sts

pub fitting-left_over : (room : ℕ) (sts : List Stat) → fitting room sts ++ left_over room sts ≡ sts
unfolding fitting left_over
fitting-left_over room [] = refl
fitting-left_over room (st ∷ sts) = elim (Bool-cases (leb (stat_length st) room)) [
  | inl fits ↦ rw fits (ap (◌∷◌ st) (fitting-left_over (room - stat_length st) sts))
  | inr over ↦ rw over refl
]
