-- ===== src/Fs/Server/Data/Listing.antt =====
-- A client that reads a directory from the start to the end, one Tread after another.
use go9p.Base.{
  ℕ, zero, suc, ◌+◌, ◌-◌, ◌^◌, ◌≤◌, ◌<◌, List, [], ◌∷◌, ◌++◌, length, length-append, Option, none,
  some, leb, if◌then◌else◌, ◌≡◌, refl, arith, ◌∙◌, ap, sym, append_assoc, All, Bool-cases, inl, inr,
  leb-true,
}
use go9p.Proto.Stat.{Stat, IsStat, stat_length, stat_bytes}
use go9p.Proto.Stat.Entries.{entries, parse_stats, parse_stats-entries}
use go9p.Proto.Marshal.Parser.{ok}
use go9p.Proto.Messages.Read.{TRead}
use go9p.Proto.Call.{rread}
use go9p.Fs.Server.Conn.{Reply, reply}
use go9p.Fs.Server.Data.{read_dir, data_reply}
use go9p.Fs.Server.Data.Directory.{
  fitting, left_over, fitting-left_over, length-entries_cons, read_dir-fitting,
}

unfoldable join : List ℕ → Option (List ℕ) → Option (List ℕ)
join got none = none
join got (some more) = some (got ++ more)

unfoldable collect : List ℕ → (ℕ → Option (List ℕ)) → Option (List ℕ)
unfolding join
collect [] next = some []
collect (b ∷ bs) next = join (b ∷ bs) (next (length (b ∷ bs)))

-- The data of a reply, and what the reads after it give, until a read gives none.
unfoldable go_on : (ℕ → Option (List ℕ)) → Reply → Option (List ℕ)
unfolding collect
go_on next (reply (rread r)) = collect r.bytes next
go_on next _ = none

unfoldable pub read_through : ℕ → TRead → List Stat → Option (List ℕ)
unfolding go_on
read_through zero t sts = none
read_through (suc k) t sts =
    go_on (λ n. read_through k (record t { offset = t.offset + n }) sts) (read_dir t sts)

-- Every entry is one that a read of `count` bytes can hold.
abbrev pub Fits : ℕ → List Stat → Type 0
Fits count sts = All (λ st. stat_length st ≤ count) sts

entries-append : (a b : List Stat) → entries (a ++ b) ≡ entries a ++ entries b
entries-append [] b = refl
entries-append (st ∷ a) b =
    ap (λ l. stat_bytes st ++ l) (entries-append a b)
    ∙ sym (append_assoc (stat_bytes st) (entries a) (entries b))

All-append_left : (P : Stat → Type 0) (a b : List Stat) → All P a → All P b → All P (a ++ b)
All-append_left P [] b ha hb = hb
All-append_left P (x ∷ a) b (hx, ha) hb = (hx, All-append_left P a b ha hb)

All-fitting :
    (P : Stat → Type 0) (room : ℕ) (sts : List Stat) → All P sts → All P (fitting room sts)
unfolding fitting
All-fitting P room [] h = h
All-fitting P room (st ∷ sts) (h, hs) = elim (Bool-cases (leb (stat_length st) room)) [
  | inl fits ↦ rw fits (h, All-fitting P (room - stat_length st) sts hs)
  | inr over ↦ rw over tt
]

All-left_over :
    (P : Stat → Type 0) (room : ℕ) (sts : List Stat) → All P sts → All P (left_over room sts)
unfolding left_over
All-left_over P room [] h = h
All-left_over P room (st ∷ sts) (h, hs) = elim (Bool-cases (leb (stat_length st) room)) [
  | inl fits ↦ rw fits (All-left_over P (room - stat_length st) sts hs)
  | inr over ↦ rw over (h, hs)
]

length-left_over : (room : ℕ) (sts : List Stat) → length (left_over room sts) ≤ length sts
unfolding left_over
length-left_over room [] = omega arith
length-left_over room (st ∷ sts) =
    let rest = length-left_over (room - stat_length st) sts in
    elim (Bool-cases (leb (stat_length st) room)) [
      | inl fits ↦ rw fits (omega arith)
      | inr over ↦ rw over (omega arith)
    ]

collect-some :
    (got more : List ℕ) (next : ℕ → Option (List ℕ))
    → 0 < length got
    → next (length got) ≡ some more
    → collect got next ≡ some (got ++ more)
unfolding collect join
collect-some [] more next pos e = absurd (omega arith)
collect-some (b ∷ bs) more next pos e = ap (join (b ∷ bs)) e

-- The first entry fits, so a read makes progress.
left_over-shorter :
    (count : ℕ) (st : Stat) (sts : List Stat)
    → stat_length st ≤ count
    → length (left_over count (st ∷ sts)) ≤ length sts
unfolding left_over
left_over-shorter count st sts h =
    rw (leb-true (stat_length st) count h) (length-left_over (count - stat_length st) sts)

fitting-some :
    (count : ℕ) (st : Stat) (sts : List Stat)
    → stat_length st ≤ count
    → 0 < length (entries (fitting count (st ∷ sts)))
unfolding fitting
fitting-some count st sts h =
    let more = fitting (count - stat_length st) sts in
    let opened : (if leb (stat_length st) count then st ∷ more else []) ≡ st ∷ more =
      ap (λ b. if b then st ∷ more else []) (leb-true (stat_length st) count h) in
    let positive : 0 < length (entries (st ∷ more)) = omega (arith, length-entries_cons st more) in
    rw opened positive

go_on-rread :
    (next : ℕ → Option (List ℕ)) (tag : ℕ) (got : List ℕ)
    → go_on next (data_reply tag got) ≡ collect got next
unfolding go_on data_reply
go_on-rread next tag got = refl

collect_end :
    (count : ℕ) (next : ℕ → Option (List ℕ)) → collect (entries (fitting count [])) next ≡ some []
unfolding collect fitting
collect_end count next = refl

-- Where the client stands: it has read the entries of `pre`.
record Standing (t : TRead) (pre sts : List Stat) : Type 0 where
  read_already : All IsStat pre
  to_read : All IsStat sts
  small : length (entries pre) + length (entries sts) < 2 ^ 64
  count_small : t.count + 2 ^ 17 ≤ 2 ^ 32
  at : t.offset ≡ length (entries pre)
  fits : Fits t.count sts

abbrev after : TRead → List Stat → TRead
after t sts = record t { offset = t.offset + length (entries sts) }

Standing-next :
    (t : TRead) (pre sts : List Stat)
    → Standing t pre sts
    → Standing (after t (fitting t.count sts)) (pre ++ fitting t.count sts) (left_over t.count sts)
Standing-next t pre sts h =
    let got = fitting t.count sts in
    let rest = left_over t.count sts in
    let all : length (entries got) + length (entries rest) ≡ length (entries sts) =
      sym (length-append (entries got) (entries rest))
      ∙ ap length (sym (entries-append got rest) ∙ ap entries (fitting-left_over t.count sts)) in
    let split : length (entries (pre ++ got)) ≡ length (entries pre) + length (entries got) =
      ap length (entries-append pre got) ∙ length-append (entries pre) (entries got) in
    record {
      read_already =
          All-append_left IsStat pre got h.read_already (All-fitting IsStat t.count sts h.to_read);
      to_read = All-left_over IsStat t.count sts h.to_read;
      small = omega (arith, h.small);
      count_small = h.count_small;
      at = omega (arith, h.at);
      fits = All-left_over (λ st. stat_length st ≤ t.count) t.count sts h.fits;
    }

read_through-entries :
    (fuel : ℕ) (t : TRead) (pre sts : List Stat)
    → Standing t pre sts
    → length sts < fuel
    → read_through fuel t (pre ++ sts) ≡ some (entries sts)
unfolding read_through
read_through-entries zero t pre sts h lt = absurd (omega arith)
read_through-entries (suc k) t pre [] h lt =
    let next : ℕ → Option (List ℕ) =
      λ n. read_through k (record t { offset = t.offset + n }) (pre ++ []) in
    ap (go_on next) (read_dir-fitting t pre [] h.read_already h.to_read h.small h.count_small h.at)
    ∙ go_on-rread next t.header.tag (entries (fitting t.count []))
    ∙ collect_end t.count next
read_through-entries (suc k) t pre (st ∷ sts) h lt =
    let all = st ∷ sts in
    let next : ℕ → Option (List ℕ) =
      λ n. read_through k (record t { offset = t.offset + n }) (pre ++ all) in
    let got = fitting t.count all in
    let rest = left_over t.count all in
    let all_there : (pre ++ got) ++ rest ≡ pre ++ all =
      append_assoc pre got rest ∙ ap (λ l. pre ++ l) (fitting-left_over t.count all) in
    let shorter = left_over-shorter t.count st sts h.fits.0 in
    let again : next (length (entries got)) ≡ some (entries rest) =
      ap (read_through k (after t got)) (sym all_there)
      ∙ read_through-entries k (after t got) (pre ++ got) rest (Standing-next t pre all h)
          (omega arith) in
    ap (go_on next) (read_dir-fitting t pre all h.read_already h.to_read h.small h.count_small h.at)
    ∙ go_on-rread next t.header.tag (entries got)
    ∙ collect-some (entries got) (entries rest) next (fitting-some t.count st sts h.fits.0) again
    ∙ ap some (sym (entries-append got rest) ∙ ap entries (fitting-left_over t.count all))

-- A client that reads a directory from offset 0 until a read gives no bytes gets the entries of all
-- its children, in order, and ParseStats reads their stats from them. It is enough to read once more
-- than there are children. The stats are valid, have less than 2^64 bytes together, and each fits
-- the count, which is at most 2^32 - 2^17.
pub read_through-stats :
    (fuel : ℕ) (t : TRead) (sts : List Stat)
    → All IsStat sts
    → length (entries sts) < 2 ^ 64
    → t.count + 2 ^ 17 ≤ 2 ^ 32
    → Fits t.count sts
    → t.offset ≡ 0
    → length sts < fuel
    → (read_through fuel t sts ≡ some (entries sts)) × (parse_stats (entries sts) ≡ some (ok sts))
read_through-stats fuel t sts valid small count fits start enough =
    let standing : Standing t [] sts = record {
      read_already = tt;
      to_read = valid;
      small = omega (arith, small);
      count_small = count;
      at = start;
      fits = fits;
    } in
    (read_through-entries fuel t [] sts standing enough, parse_stats-entries sts valid)
