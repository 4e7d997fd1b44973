-- ===== src/Proto/Marshal/Cursor.antt =====
-- The composing half of proto/marshall.go: writers that fill a buffer behind a cursor.
use go9p.Base.{
  ℕ, suc, ◌≤◌, ◌%◌, ◌^◌, List, [], ◌∷◌, ◌++◌, length, take, drop, replicate, ltb, if◌then◌else◌,
  Option, none, some, ◌≡◌, refl, sym, ap, ◌∙◌, arith, length-append, length-drop, length-replicate,
  drop-append_lengths, drop-all, take-all, append-nil, append_assoc, zero, ◌/◌, ltb-false,
  some-injective, mod-eq_of_lt,
}
use go9p.Proto.Marshal.{le_bytes, IsText}

-- A writer is given what is left of the buffer. It returns the bytes that now stand before its new
-- cursor and what is left behind it; `none` is a Go panic (an index or a slice out of range).
abbrev pub Writer : Type 0
Writer = List ℕ → Option (List ℕ × List ℕ)

abbrev prepend : List ℕ → Option (List ℕ × List ℕ) → Option (List ℕ × List ℕ)
prepend p none = none
prepend p (some (q, c)) = some (p ++ q, c)

-- One writer after another, on the slice that the first one left.
infixr 6 ◌then_write◌
abbrev pub ◌then_write◌ : Writer → Writer → Writer
◌then_write◌ w v buff = elim (w buff) [ none ↦ none | some (p, b) ↦ prepend p (v b) ]

-- `PutUint` panics when the slice is shorter than the number.
unfoldable pub to_little : ℕ → ℕ → Writer
to_little k i buff = if ltb (length buff) k then none else some (le_bytes k i, drop k buff)

unfoldable pub to_little_e16 : ℕ → Writer
unfolding to_little
to_little_e16 i = to_little 2 i

unfoldable pub to_little_e32 : ℕ → Writer
unfolding to_little
to_little_e32 i = to_little 4 i

unfoldable pub to_little_e64 : ℕ → Writer
unfolding to_little
to_little_e64 i = to_little 8 i

-- `buffer[0] = x; buffer = buffer[1:]`
unfoldable pub to_byte : ℕ → Writer
to_byte x [] = none
to_byte x (_ ∷ buff) = some (x ∷ [], buff)

-- `copy(buffer, s); buffer = buffer[len(s):]`: the copy stops at the end of the buffer, and the
-- slice panics there.
unfoldable pub to_copy : List ℕ → Writer
to_copy s buff = if ltb (length buff) (length s) then none else some (s, drop (length s) buff)

-- `copy(buffer, s)` with the cursor left where it is.
unfoldable pub to_copy_last : List ℕ → Writer
to_copy_last s buff = some ([], take (length buff) s ++ drop (length s) buff)

-- toString: the length is cut to 16 bits.
unfoldable pub to_string : List ℕ → Writer
unfolding to_copy
to_string s = to_little_e16 (length s % 2 ^ 16) then_write to_copy s

abbrev whole : Option (List ℕ × List ℕ) → Option (List ℕ)
whole none = none
whole (some (p, c)) = some (p ++ c)

-- `buff := make([]byte, length)`, filled by a writer and returned whole.
unfoldable pub make_buffer : ℕ → Writer → Option (List ℕ)
make_buffer n w = whole (w (replicate n 0))

-- `w` writes exactly `bs`, on every buffer with room for them.
pub record Emits (w : Writer) (bs : List ℕ) : Type 0 where
  pub at : (buff : List ℕ) → length bs ≤ length buff → w buff ≡ some (bs, drop (length bs) buff)

-- `w` fills a buffer of the length of `bs` with `bs`.
pub record Fills (w : Writer) (bs : List ℕ) : Type 0 where
  pub at : (buff : List ℕ) → length buff ≡ length bs → whole (w buff) ≡ some bs

pub Emits-then :
    {w v : Writer} {p q : List ℕ} → Emits w p → Emits v q → Emits (w then_write v) (p ++ q)
Emits-then {w} {v} {p} {q} hw hv = record {
  at = λ buff h.
      let room : length q ≤ length (drop (length p) buff) =
        omega (arith, length-append p q, length-drop (length p) buff) in
      rw (hw.at buff (omega (arith, length-append p q)), ◌then_write◌)
        (rw (hv.at (drop (length p) buff) room, prepend)
          (ap (λ t. some (p ++ q, t)) (sym (drop-append_lengths p q buff))));
}

whole-prepend :
    (p q : List ℕ) (r : Option (List ℕ × List ℕ))
    → whole r ≡ some q
    → whole (prepend p r) ≡ some (p ++ q)
whole-prepend p q none e = cc
whole-prepend p q (some (s, c)) e =
    ap some (append_assoc p s c ∙ ap (λ t. p ++ t) (some-injective _ _ e))

pub Fills-then :
    {w v : Writer} {p q : List ℕ} → Emits w p → Fills v q → Fills (w then_write v) (p ++ q)
Fills-then {w} {v} {p} {q} hw hv = record {
  at = λ buff h.
      let room : length (drop (length p) buff) ≡ length q =
        omega (arith, length-append p q, length-drop (length p) buff) in
      rw (hw.at buff (omega (arith, length-append p q)), ◌then_write◌)
        (whole-prepend p q _ (hv.at (drop (length p) buff) room));
}

pub Fills-Emits : {w : Writer} {bs : List ℕ} → Emits w bs → Fills w bs
Fills-Emits {w} {bs} hw = record {
  at = λ buff h.
      rw (hw.at buff (omega arith), whole)
        (rw (drop-all (length bs) buff (omega arith)) (ap some (append-nil bs)));
}

pub length-le_bytes : (k i : ℕ) → length (le_bytes k i) ≡ k
unfolding le_bytes
length-le_bytes zero i = refl
length-le_bytes (suc k) i = ap suc (length-le_bytes k (i / 256))

to_little-Emits : (k i : ℕ) → Emits (to_little k i) (le_bytes k i)
unfolding to_little
to_little-Emits k i = record {
  at = λ buff h.
      rw (length-le_bytes, ltb-false (length buff) k (omega (arith, length-le_bytes k i))) refl;
}

pub to_little_e16-Emits : (i : ℕ) → Emits (to_little_e16 i) (le_bytes 2 i)
unfolding to_little_e16
to_little_e16-Emits i = to_little-Emits 2 i

pub to_little_e32-Emits : (i : ℕ) → Emits (to_little_e32 i) (le_bytes 4 i)
unfolding to_little_e32
to_little_e32-Emits i = to_little-Emits 4 i

pub to_little_e64-Emits : (i : ℕ) → Emits (to_little_e64 i) (le_bytes 8 i)
unfolding to_little_e64
to_little_e64-Emits i = to_little-Emits 8 i

to_byte_lem :
    (x : ℕ) (buff : List ℕ) → 1 ≤ length buff → to_byte x buff ≡ some (x ∷ [], drop 1 buff)
unfolding to_byte
to_byte_lem x [] h = absurd (omega arith)
to_byte_lem x (b ∷ buff) h = refl

pub to_byte-Emits : (x : ℕ) → Emits (to_byte x) (x ∷ [])
to_byte-Emits x = record { at = λ buff h. to_byte_lem x buff h }

pub to_copy-Emits : (s : List ℕ) → Emits (to_copy s) s
unfolding to_copy
to_copy-Emits s = record { at = λ buff h. rw (ltb-false (length buff) (length s) h) refl }

pub to_copy_last-Fills : (s : List ℕ) → Fills (to_copy_last s) s
unfolding to_copy_last
to_copy_last-Fills s = record {
  at = λ buff h.
      rw (take-all (length buff) s (omega arith), drop-all (length s) buff (omega arith))
        (ap some (append-nil s));
}

-- The bytes of a string on the wire: its length in two bytes, then itself.
abbrev pub text : List ℕ → List ℕ
text s = le_bytes 2 (length s) ++ s

pub to_string-Emits : (s : List ℕ) → IsText s → Emits (to_string s) (text s)
unfolding to_string
to_string-Emits s h =
    rw (mod-eq_of_lt h) (Emits-then (to_little_e16-Emits (length s)) (to_copy-Emits s))

-- A buffer of the right size comes out as the bytes that its writer stands for.
pub make_buffer-Fills :
    (n : ℕ) {w : Writer} {bs : List ℕ} → n ≡ length bs → Fills w bs → make_buffer n w ≡ some bs
unfolding make_buffer
make_buffer-Fills n e h = h.at (replicate n 0) (length-replicate n 0 ∙ e)

-- A message that has nothing behind its tag.
unfoldable pub to_end : Writer
to_end buff = some ([], buff)

pub to_end-Fills : Fills to_end []
unfolding to_end
to_end-Fills = record { at = λ buff h. ap some (no_bytes buff h) }
  where
    no_bytes : (buff : List ℕ) → length buff ≡ 0 → buff ≡ []
    no_bytes [] h = refl
    no_bytes (b ∷ bs) h = absurd (omega arith)

-- `copy(buffer, x.Compose())`, where composing `x` may panic; the cursor stays.
unfoldable pub to_composed_last : Option (List ℕ) → Writer
to_composed_last none buff = none
to_composed_last (some s) buff = to_copy_last s buff

pub to_composed_last-Fills :
    {o : Option (List ℕ)} {s : List ℕ} → o ≡ some s → Fills (to_composed_last o) s
unfolding to_composed_last
to_composed_last-Fills {o} {s} e = record {
  at = λ buff h. rw (e, to_composed_last) ((to_copy_last-Fills s).at buff h);
}
