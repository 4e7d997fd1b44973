-- ===== src/Fs/Static/File/Contents.antt =====
-- Read and Write of a StaticFile against the bytes of the file.
use go9p.Base.{
  ℕ, zero, suc, ◌+◌, ◌-◌, ◌%◌, ◌^◌, ◌≤◌, ◌<◌, List, [], ◌++◌, length, take, drop, replicate, ltb,
  leb, if◌then◌else◌, Bool-cases, inl, inr, arith, ◌≡◌, refl, sym, ap, ◌∙◌, length-drop,
  length-append, length-take, length-replicate, take-all, drop-all, mod-eq_of_lt, ltb-false,
  get_elem?, Option, none, some, leb→le, leb_false→lt,
}
use go9p.Base.{
  Option, none, some, ltb→lt, ltb_false→le, get_elem?-append, get_elem?-take, get_elem?-drop,
  get_elem?-replicate, get_elem?-none, get_elem?-ext, length-append, length-replicate, length-take,
  replicate, suc, zero,
}
use mathlib.Core.Path.{subst}
use go9p.Fs.Result.{ok}
use go9p.Fs.Static.File.{
  StaticFile, slice, static_file_read, static_file_write, grow, overwrite, written,
}

take-nil : (n : ℕ) → ◌≡◌ {A = List ℕ} (take n []) []
take-nil zero = refl
take-nil (suc n) = refl

slice_inside :
    (xs : List ℕ) (lo n : ℕ)
    → lo + n ≤ length xs
    → length xs < 2 ^ 64
    → slice xs lo ((lo + n) % 2 ^ 64) ≡ ok (take n (drop lo xs))
unfolding slice
slice_inside xs lo n h hf =
    let e : (lo + n) % 2 ^ 64 ≡ lo + n = mod-eq_of_lt (omega arith) in
    let d : lo + n - lo ≡ n = omega arith in
    rw (e, ltb-false (lo + n) lo (omega arith), ltb-false (length xs) (lo + n) h, d) refl

read_inside :
    (f : StaticFile) (offset count : ℕ)
    → offset < length f.contents
    → length f.contents < 2 ^ 64
    → offset + count < 2 ^ 64
    → slice f.contents offset (
        (offset
          + (if ltb (length f.contents) ((offset + count) % 2 ^ 64)
              then length f.contents - offset
              else count))
        % 2 ^ 64)
      ≡ ok (take count (drop offset f.contents))
read_inside f offset count lo hf h =
    rw (mod-eq_of_lt h) (elim (Bool-cases (ltb (length f.contents) (offset + count))) [
      | inl e ↦
          let lt : length f.contents < offset + count = ltb→lt _ _ e in
          rw (e, slice_inside f.contents offset (length f.contents - offset) (omega arith) hf)
            (ap ok (
              take-all (length f.contents - offset) (drop offset f.contents)
                (omega (arith, length-drop offset f.contents))
              ∙ sym (
                  take-all count (drop offset f.contents)
                    (omega (arith, length-drop offset f.contents)))))
      | inr e ↦ rw (e, slice_inside f.contents offset count (ltb_false→le _ _ e) hf) refl
    ])

-- Read returns the `count` bytes at `offset`, or those that are there, for every offset and count
-- whose sum does not overflow; it neither fails nor panics.
pub static_file_read-take :
    (f : StaticFile) (offset count : ℕ)
    → length f.contents < 2 ^ 64
    → offset + count < 2 ^ 64
    → static_file_read f offset count ≡ ok (take count (drop offset f.contents))
unfolding static_file_read
static_file_read-take f offset count hf h = elim (Bool-cases (leb (length f.contents) offset)) [
  | inl e ↦ rw (e, drop-all offset f.contents (leb→le _ _ e), take-nil count) refl
  | inr e ↦ rw e (read_inside f offset count (leb_false→lt _ _ e) hf h)
]

-- What a write of `source` at `offset` leaves in a file that held `bytes`: the old bytes before the
-- offset, zeros up to it where the file was shorter, the new bytes, and the old bytes behind them.
abbrev pub byte_after_write : List ℕ → ℕ → List ℕ → ℕ → Option ℕ
byte_after_write bytes offset source i =
    if ltb i offset
    then (if ltb i (length bytes) then get_elem? bytes i else some 0)
    else if ltb i (offset + length source)
    then get_elem? source (i - offset)
    else get_elem? bytes i

abbrev pub grown : List ℕ → ℕ → List ℕ
grown bytes newlen =
    if ltb (length bytes) newlen then bytes ++ replicate (newlen - length bytes) 0 else bytes

abbrev pub over : List ℕ → ℕ → List ℕ → List ℕ
over bytes offset source = take offset bytes ++ (source ++ drop (offset + length source) bytes)

-- The contents that a write leaves.
abbrev pub bytes_after_write : List ℕ → ℕ → List ℕ → List ℕ
bytes_after_write bytes offset source = over (grown bytes (offset + length source)) offset source

get_elem?-grown :
    (bytes : List ℕ) (newlen i : ℕ)
    → get_elem? (grown bytes newlen) i
      ≡ (if ltb i (length bytes) then get_elem? bytes i else if ltb i newlen then some 0 else none)
get_elem?-grown bytes newlen i = ground (
  arith,
  get_elem?-append bytes (replicate (newlen - length bytes) 0) i,
  get_elem?-replicate {A = ℕ} (newlen - length bytes) 0 (i - length bytes),
  get_elem?-none bytes i,
)

length-grown : (bytes : List ℕ) (newlen : ℕ) → newlen ≤ length (grown bytes newlen)
length-grown bytes newlen = ground (
  arith,
  length-append bytes (replicate (newlen - length bytes) 0),
  length-replicate {A = ℕ} (newlen - length bytes) 0,
)

reach : (i o n : ℕ) → o + n + (i - o - n) ≡ (if ltb i (o + n) then o + n else i)
reach i o n = ground arith

get_elem?-over :
    (bytes : List ℕ) (offset : ℕ) (source : List ℕ) (i : ℕ)
    → offset + length source ≤ length bytes
    → get_elem? (over bytes offset source) i ≡ (
        if ltb i offset
        then get_elem? bytes i
        else if ltb i (offset + length source)
        then get_elem? source (i - offset)
        else get_elem? bytes i)
get_elem?-over bytes offset source i h = ground (
  arith,
  get_elem?-append (take offset bytes) (source ++ drop (offset + length source) bytes) i,
  get_elem?-append source (drop (offset + length source) bytes) (i - offset),
  get_elem?-take offset bytes i,
  get_elem?-drop (offset + length source) bytes (i - offset - length source),
  ap (λ (k : ℕ). get_elem? bytes k) (reach i offset (length source)),
  length-take offset bytes (omega arith),
)

-- The state that a write leaves, with the length that the stat is given.
abbrev pub after_write : StaticFile → ℕ → List ℕ → StaticFile
after_write f offset source =
    let newlen = offset + length source in
    record {
      f_stat =
          (if ltb (length f.contents) newlen
            then record f.f_stat { length = newlen }
            else f.f_stat);
      contents = bytes_after_write f.contents offset source;
    }

grow-grown :
    (alloc_limit : ℕ) (bytes : List ℕ) (newlen : ℕ)
    → newlen ≤ length bytes + alloc_limit
    → grow alloc_limit bytes newlen ≡ ok (grown bytes newlen)
unfolding grow
grow-grown alloc_limit bytes newlen h = ground arith

overwrite-over :
    (bytes : List ℕ) (offset : ℕ) (source : List ℕ)
    → offset + length source ≤ length bytes
    → overwrite bytes offset (offset + length source) source ≡ ok (over bytes offset source)
unfolding overwrite
overwrite-over bytes offset source h =
    let d : offset + length source - offset ≡ length source = omega arith in
    rw
      (
        ltb-false (offset + length source) offset (omega arith),
        ltb-false (length bytes) (offset + length source) h,
        d,
        take-all (length source) source (omega arith),
      )
      refl

pub static_file_write-after_write :
    (alloc_limit : ℕ) (f : StaticFile) (offset : ℕ) (source : List ℕ)
    → offset + length source < 2 ^ 64
    → length source < 2 ^ 32
    → offset + length source ≤ length f.contents + alloc_limit
    → static_file_write alloc_limit f offset source
      ≡ ok (length source, after_write f offset source)
unfolding static_file_write
static_file_write-after_write alloc_limit f offset source h short room =
    rw (mod-eq_of_lt h, grow-grown alloc_limit f.contents (offset + length source) room)
      (ap (written f (offset + length source) source) (
          overwrite-over (grown f.contents (offset + length source)) offset source
            (length-grown f.contents (offset + length source)))
        ∙ rw (mod-eq_of_lt short) refl)

pub byte_after_write_lem :
    (bytes : List ℕ) (offset : ℕ) (source : List ℕ) (i : ℕ)
    → get_elem? (bytes_after_write bytes offset source) i ≡ byte_after_write bytes offset source i
byte_after_write_lem bytes offset source i = ground (
  arith,
  get_elem?-over (grown bytes (offset + length source)) offset source i
      (length-grown bytes (offset + length source)),
  get_elem?-grown bytes (offset + length source) i,
  get_elem?-none bytes i,
)

-- A write whose end does not overflow and that the runtime can allocate succeeds, reports its own
-- length, and leaves every byte of the file as `byte_after_write` says: the old byte outside the
-- written range, zero in the gap before it, and the new byte inside it.
pub static_file_write-bytes :
    (alloc_limit : ℕ) (f : StaticFile) (offset : ℕ) (source : List ℕ)
    → offset + length source < 2 ^ 64
    → length source < 2 ^ 32
    → offset + length source ≤ length f.contents + alloc_limit
    → (f' : StaticFile) × (static_file_write alloc_limit f offset source ≡ ok (length source, f'))
      × ((i : ℕ) → get_elem? f'.contents i ≡ byte_after_write f.contents offset source i)
static_file_write-bytes alloc_limit f offset source h short room = (
  after_write f offset source,
  static_file_write-after_write alloc_limit f offset source h short room,
  byte_after_write_lem f.contents offset source,
)

read_back :
    (bytes source : List ℕ) (offset i : ℕ)
    → (if ltb i (length source) then byte_after_write bytes offset source (offset + i) else none)
      ≡ get_elem? source i
read_back bytes source offset i =
    let e : offset + i - offset ≡ i = omega arith in
    ground (arith, ap (λ (k : ℕ). get_elem? source k) e, get_elem?-none source i)

pub length-bytes_after_write :
    (bytes : List ℕ) (offset : ℕ) (source : List ℕ)
    → length (bytes_after_write bytes offset source) ≡ (
        if ltb (length bytes) (offset + length source)
        then offset + length source
        else length bytes)
length-bytes_after_write bytes offset source = ground (
  arith,
  length-append (take offset (grown bytes (offset + length source)))
      (source ++ drop (offset + length source) (grown bytes (offset + length source))),
  length-append source (drop (offset + length source) (grown bytes (offset + length source))),
  length-drop (offset + length source) (grown bytes (offset + length source)),
  length-take offset (grown bytes (offset + length source))
      (omega (arith, length-grown bytes (offset + length source))),
  length-append bytes (replicate (offset + length source - length bytes) 0),
  length-replicate {A = ℕ} (offset + length source - length bytes) 0,
)

length-after_write :
    (bytes : List ℕ) (offset : ℕ) (source : List ℕ) (bound : ℕ)
    → length bytes < bound
    → offset + length source < bound
    → length (over (grown bytes (offset + length source)) offset source) < bound
length-after_write bytes offset source bound h k = ground (
  arith,
  length-append (take offset (grown bytes (offset + length source)))
      (source ++ drop (offset + length source) (grown bytes (offset + length source))),
  length-append source (drop (offset + length source) (grown bytes (offset + length source))),
  length-drop (offset + length source) (grown bytes (offset + length source)),
  length-take offset (grown bytes (offset + length source))
      (omega (arith, length-grown bytes (offset + length source))),
  length-append bytes (replicate (offset + length source - length bytes) 0),
  length-replicate {A = ℕ} (offset + length source - length bytes) 0,
)

taken_back :
    (f : StaticFile) (offset : ℕ) (source : List ℕ)
    → take (length source) (drop offset (after_write f offset source).contents) ≡ source
taken_back f offset source = get_elem?-ext _ _ λ i.
    get_elem?-take (length source) (drop offset (after_write f offset source).contents) i
    ∙ ap (λ t. if ltb i (length source) then t else none)
        (get_elem?-drop offset (after_write f offset source).contents i
          ∙ byte_after_write_lem f.contents offset source (offset + i))
    ∙ read_back f.contents source offset i

-- Reading back the range of a write gives the bytes that were written.
pub static_file_read-write :
    (alloc_limit : ℕ) (f f' : StaticFile) (offset n : ℕ) (source : List ℕ)
    → offset + length source < 2 ^ 64
    → length source < 2 ^ 32
    → offset + length source ≤ length f.contents + alloc_limit
    → length f.contents < 2 ^ 64
    → static_file_write alloc_limit f offset source ≡ ok (n, f')
    → static_file_read f' offset (length source) ≡ ok source
static_file_read-write alloc_limit f f' offset n source h short room small e =
    let w : ok (length source, after_write f offset source) ≡ ok (n, f') =
      sym (static_file_write-after_write alloc_limit f offset source h short room) ∙ e in
    let same : after_write f offset source ≡ f' = cc w in
    subst (λ g. static_file_read g offset (length source) ≡ ok source) same
      (static_file_read-take (after_write f offset source) offset (length source)
          (length-after_write f.contents offset source (2 ^ 64) small h) h
        ∙ ap ok (taken_back f offset source))
