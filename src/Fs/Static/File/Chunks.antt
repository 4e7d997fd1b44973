-- ===== src/Fs/Static/File/Chunks.antt =====
-- Two writes of which the second goes on where the first ends.
use go9p.Base.{
  ℕ, ◌+◌, ◌-◌, ◌<◌, List, ◌++◌, length, ltb, if◌then◌else◌, get_elem?, ◌≡◌, ap, sym, ◌∙◌, arith,
  get_elem?-append, get_elem?-ext, get_elem?-none, length-append,
}
use go9p.Fs.Static.File.Contents.{
  byte_after_write, bytes_after_write, byte_after_write_lem, length-bytes_after_write,
}

byte_after_both :
    (bytes mid first second : List ℕ) (offset i : ℕ)
    → 0 < length first
    → 0 < length second
    → get_elem? mid i ≡ byte_after_write bytes offset first i
    → length mid
      ≡ (if ltb (length bytes) (offset + length first) then offset + length first else length bytes)
    → byte_after_write mid (offset + length first) second i
      ≡ byte_after_write bytes offset (first ++ second) i
byte_after_both bytes mid first second offset i h k at len =
    let e : i - (offset + length first) ≡ i - offset - length first = omega arith in
    ground (
      arith,
      ap (λ (j : ℕ). get_elem? second j) e,
      get_elem?-append first second (i - offset),
      get_elem?-none mid i,
      get_elem?-none bytes i,
      length-append first second,
    )

-- Writing `first` and then `second` behind it is writing `first ++ second`.
pub bytes_after_write-append :
    (bytes first second : List ℕ) (offset : ℕ)
    → 0 < length first
    → 0 < length second
    → bytes_after_write (bytes_after_write bytes offset first) (offset + length first) second
      ≡ bytes_after_write bytes offset (first ++ second)
bytes_after_write-append bytes first second offset h k = get_elem?-ext _ _ (λ i.
    byte_after_write_lem (bytes_after_write bytes offset first) (offset + length first) second i
    ∙ byte_after_both bytes (bytes_after_write bytes offset first) first second offset i h k
        (byte_after_write_lem bytes offset first i) (length-bytes_after_write bytes offset first)
    ∙ sym (byte_after_write_lem bytes offset (first ++ second) i))
