-- ===== src/Proto/Header.antt =====
-- proto/fcall.go: the message header, and the lines that every Compose begins with.
pub mod Types
use go9p.Base.{
  ℕ, suc, ◌+◌, ◌%◌, ◌^◌, ◌<◌, List, [], ◌∷◌, ◌++◌, length, ltb, if◌then◌else◌, Option, some, ◌≡◌,
  refl, ◌≤◌, arith, length-append, append_assoc, mod-eq_of_lt, ltb-false, append-nil,
}
use go9p.Proto.Marshal.{le_bytes, from_little_e16, IsU16, IsU32}
use go9p.Proto.Marshal.Cursor.{
  Writer, ◌then_write◌, to_little_e32, to_little_e16, to_byte, make_buffer, Fills, Fills-then,
  Fills-Emits, to_little_e32-Emits, to_little_e16-Emits, to_byte-Emits, make_buffer-Fills,
  length-le_bytes,
}
use go9p.Proto.Marshal.Parser.{
  Outcome, ok, err, panic, Parser, u16, pure, ◌>>=◌, byte, short_header, Parses, Parses-bind,
  Parses-map, Parses-byte, Parses-u16,
}

pub record Header : Type 0 where
  pub type : ℕ
  pub tag : ℕ

header_fields : Parser Header
header_fields = do type ← byte; tag ← u16; pure (record { type = type; tag = tag })

-- Header.parse: three bytes are wanted, although the message says two.
unfoldable pub parse_header : Parser Header
unfolding header_fields
parse_header buff =
    if ltb (length buff) 3 then err (short_header (length buff)) else header_fields buff

-- The opening lines of every Compose, before what `body` writes.
unfoldable pub to_header : ℕ → Header → Writer → Writer
to_header size h body =
    to_little_e32 (size % 2 ^ 32)
    then_write to_byte h.type
    then_write to_little_e16 h.tag
    then_write body

-- A message on the wire: size[4] type tag[2] body.
abbrev pub frame : Header → List ℕ → List ℕ
frame h body = le_bytes 4 (7 + length body) ++ ((h.type ∷ []) ++ (le_bytes 2 h.tag ++ body))

pub length-frame : (h : Header) (body : List ℕ) → length (frame h body) ≡ 7 + length body
length-frame h body = omega (
  arith,
  length-append (le_bytes 4 (7 + length body)) ((h.type ∷ []) ++ (le_bytes 2 h.tag ++ body)),
  length-append (le_bytes 2 h.tag) body,
  length-le_bytes 4 (7 + length body),
  length-le_bytes 2 h.tag,
)

-- With the right length, a buffer is filled with the frame of its body.
pub make_buffer-frame :
    (h : Header) (size : ℕ) {w : Writer} {body : List ℕ}
    → size ≡ 7 + length body
    → IsU32 size
    → Fills w body
    → make_buffer size (to_header size h w) ≡ some (frame h body)
unfolding to_header
make_buffer-frame h size {w} {body} e fits hw = rw (mod-eq_of_lt fits) (
    rw e (
      make_buffer-Fills (7 + length body) (omega (arith, length-frame h body)) (
        Fills-then (to_little_e32-Emits _)
          (Fills-then (to_byte-Emits h.type) (Fills-then (to_little_e16-Emits h.tag) hw)))))

Parses-header_fields :
    (h : Header) → IsU16 h.tag → Parses header_fields ((h.type ∷ []) ++ le_bytes 2 h.tag) h
unfolding header_fields
Parses-header_fields h fits = Parses-bind _ (Parses-byte h.type) (Parses-map _ (Parses-u16 fits))

length-header :
    (h : Header) (rest : List ℕ) → 3 ≤ length (((h.type ∷ []) ++ le_bytes 2 h.tag) ++ rest)
length-header h rest = omega (arith, length-append (le_bytes 2 h.tag) rest, length-le_bytes 2 h.tag)

-- The parser of the header reads back what `frame` put there.
pub Parses-header :
    (h : Header) → IsU16 h.tag → Parses parse_header ((h.type ∷ []) ++ le_bytes 2 h.tag) h
unfolding parse_header
Parses-header h fits = record {
  at = λ rest. rw (ltb-false _ 3 (length-header h rest)) ((Parses-header_fields h fits).at rest);
}
