-- ===== src/Proto/Marshal/Parser.antt =====
-- The parsing half of proto/marshall.go, as a monad over the bytes that are left.
use go9p.Base.{
  ℕ, zero, suc, ◌/◌, ◌^◌, ◌<◌, List, [], ◌∷◌, ◌++◌, length, take, drop, ltb, if◌then◌else◌, ◌≡◌,
  refl, ap, arith, length-append, take-append, drop-append, ltb-false, append_assoc, append-nil,
}
use go9p.Proto.Marshal.{
  le_bytes, from_le, from_little, from_little_e16, from_little_e32, from_little_e64, from_string,
  IsU16, IsU32, IsU64, IsText,
}
use go9p.Proto.Marshal.Cursor.{length-le_bytes, text}
use native.Mathlib.Nat.{pow-suc}
use mathlib.Core.Path.{subst}

-- The errors that the parsers of proto/ return, without their texts.
pub data ParseError : Type 0 where
  -- "expected 2 bytes. got: %d"
  short_header : ℕ → ParseError
  -- "can't parse. Reached end of buffer."
  end_of_buffer : ParseError
  -- "short fcall"
  short_fcall : ParseError
  -- "Can't allocate %d bytes for message."
  too_long : ℕ → ParseError
  -- "Message type %d not implemented."
  not_implemented : ℕ → ParseError
  -- the reader's own error: the connection is at its end
  read_error : ParseError

-- A result, a returned error, or a Go panic.
pub data Outcome {ℓ} (A : Type ℓ) : Type ℓ where
  ok : A → Outcome A
  err : ParseError → Outcome A
  panic : Outcome A

abbrev pub Parser : Type 0 → Type 0
Parser A = List ℕ → Outcome (A × List ℕ)

infixl 5 ◌>>=◌
unfoldable pub ◌>>=◌ : {A B : Type 0} → Parser A → (A → Parser B) → Parser B
◌>>=◌ m f buff = elim (m buff) [ ok (a, rest) ↦ f a rest | err e ↦ err e | panic ↦ panic ]

abbrev pub pure : {A : Type 0} → A → Parser A
pure a buff = ok (a, buff)

-- A reader that always returns, as a parser.
abbrev pub lift : {A : Type 0} → (List ℕ → A × List ℕ) → Parser A
lift f buff = ok (f buff)

abbrev pub u16 : Parser ℕ
u16 = lift from_little_e16

abbrev pub u32 : Parser ℕ
u32 = lift from_little_e32

abbrev pub u64 : Parser ℕ
u64 = lift from_little_e64

abbrev pub string : Parser (List ℕ)
string = lift from_string

-- `x = buff[0]; buff = buff[1:]`
unfoldable pub byte : Parser ℕ
byte [] = panic
byte (b ∷ buff) = ok (b, buff)

-- `data = make([]byte, count); copy(data, buff[:count]); buff[count:]`
unfoldable pub counted : ℕ → Parser (List ℕ)
counted count buff =
    if ltb (length buff) count then panic else ok (take count buff, drop count buff)

-- `p` reads `a` off `bs`, and leaves what follows.
pub record Parses {A : Type 0} (p : Parser A) (bs : List ℕ) (a : A) : Type 0 where
  pub at : (rest : List ℕ) → p (bs ++ rest) ≡ ok (a, rest)

module _ {A : Type 0} where
  pub Parses-bind :
      {B : Type 0} {p : Parser A} (f : A → Parser B) {bs cs : List ℕ} {a : A} {b : B}
      → Parses p bs a
      → Parses (f a) cs b
      → Parses (p >>= f) (bs ++ cs) b
  unfolding ◌>>=◌
  Parses-bind f {bs} {cs} h k = record {
    at = λ rest. rw (append_assoc, ◌>>=◌) (rw (h.at (cs ++ rest)) (k.at rest));
  }

  pub Parses-map :
      {B : Type 0} {p : Parser A} {bs : List ℕ} {a : A} (g : A → B)
      → Parses p bs a
      → Parses (p >>= λ x. pure (g x)) bs (g a)
  unfolding ◌>>=◌
  Parses-map g h = record { at = λ rest. rw (h.at rest, ◌>>=◌) refl }

from_le-le_bytes : (k i : ℕ) → i < 256 ^ k → from_le (le_bytes k i) ≡ i
unfolding le_bytes from_le
from_le-le_bytes zero i h = omega arith
from_le-le_bytes (suc k) i h =
    omega (arith, from_le-le_bytes k (i / 256) (omega (arith, pow-suc 256 k)))

from_little-le_bytes :
    (k i : ℕ) (rest : List ℕ) → i < 256 ^ k → from_little k (le_bytes k i ++ rest) ≡ (i, rest)
unfolding from_little
from_little-le_bytes k i rest h =
    let e : length (le_bytes k i) ≡ k = length-le_bytes k i in
    let t : take k (le_bytes k i ++ rest) ≡ le_bytes k i =
      subst (λ n. take n (le_bytes k i ++ rest) ≡ le_bytes k i) e
        (take-append (le_bytes k i) rest) in
    let d : drop k (le_bytes k i ++ rest) ≡ rest =
      subst (λ n. drop n (le_bytes k i ++ rest) ≡ rest) e (drop-append (le_bytes k i) rest) in
    rw
      (
        ltb-false (length (le_bytes k i ++ rest)) k
            (omega (arith, e, length-append (le_bytes k i) rest)),
        t,
        d,
        from_le-le_bytes k i h,
      )
      refl

from_little_e16-le_bytes :
    (i : ℕ) (rest : List ℕ) → IsU16 i → from_little_e16 (le_bytes 2 i ++ rest) ≡ (i, rest)
unfolding from_little_e16
from_little_e16-le_bytes i rest h = from_little-le_bytes 2 i rest h

-- The size field alone.
pub from_little_e32-size : (i : ℕ) → IsU32 i → from_little_e32 (le_bytes 4 i) ≡ (i, [])
unfolding from_little_e32
from_little_e32-size i h =
    subst (λ b. from_little_e32 b ≡ (i, [])) (append-nil (le_bytes 4 i))
      (from_little-le_bytes 4 i [] h)

pub Parses-u16 : {i : ℕ} → IsU16 i → Parses u16 (le_bytes 2 i) i
unfolding from_little_e16
Parses-u16 {i} h = record { at = λ rest. ap ok (from_little-le_bytes 2 i rest h) }

pub Parses-u32 : {i : ℕ} → IsU32 i → Parses u32 (le_bytes 4 i) i
unfolding from_little_e32
Parses-u32 {i} h = record { at = λ rest. ap ok (from_little-le_bytes 4 i rest h) }

pub Parses-u64 : {i : ℕ} → IsU64 i → Parses u64 (le_bytes 8 i) i
unfolding from_little_e64
Parses-u64 {i} h = record { at = λ rest. ap ok (from_little-le_bytes 8 i rest h) }

pub Parses-byte : (b : ℕ) → Parses byte (b ∷ []) b
unfolding byte
Parses-byte b = record { at = λ rest. refl }

pub Parses-counted : (bs : List ℕ) → Parses (counted (length bs)) bs bs
unfolding counted
Parses-counted bs = record {
  at = λ rest.
      rw
        (
          ltb-false (length (bs ++ rest)) (length bs) (omega (arith, length-append bs rest)),
          take-append,
          drop-append,
        )
        refl;
}

pub Parses-string : (s : List ℕ) → IsText s → Parses string (text s) s
unfolding from_string
Parses-string s h = record {
  at = λ rest.
      rw (append_assoc, from_little_e16-le_bytes (length s) (s ++ rest) h)
        (rw
          (
            ltb-false (length (s ++ rest)) (length s) (omega (arith, length-append s rest)),
            take-append,
            drop-append,
          )
          refl);
}
