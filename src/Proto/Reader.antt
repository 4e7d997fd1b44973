-- ===== src/Proto/Reader.antt =====
-- readBytes of proto/marshall.go over an io.Reader.
use mathlib.Core.Path.{subst₂}
use go9p.Base.{
  take-append, drop-append, ◌∙◌, ℕ, zero, suc, ◌-◌, ◌≤◌, ◌<◌, List, [], ◌∷◌, ◌++◌, length, take,
  drop, leb, ◌==◌, if◌then◌else◌, Option, none, some, ◌≡◌, refl, sym, ap, arith, length-append,
  take-append_ge, drop-append_ge, take-append_le, drop-append_le, Bool-cases, leb→le, leb_false→lt,
  suc-==-zero, inl, inr,
}

-- A connection: what each coming call of Read can deliver, then the end of the stream. Read gives
-- as much of the next chunk as the buffer takes; an empty chunk is a Read of no bytes.
abbrev pub Reader : Type 0
Reader = List (List ℕ)

-- The bytes that are still to come.
abbrev pub stream : Reader → List ℕ
stream [] = []
stream (c ∷ cs) = c ++ stream cs

abbrev after_chunk : List ℕ → Option (List ℕ × Reader) → Option (List ℕ × Reader)
after_chunk c none = none
after_chunk c (some (bs, r)) = some (c ++ bs, r)

-- `for read < len(buff) { currRead, err = r.Read(buff[read:]) … }` on the n bytes still wanted;
-- `none` is the error of the reader.
unfoldable pub read_bytes : ℕ → Reader → Option (List ℕ × Reader)
read_bytes n [] = if n == 0 then some ([], []) else none
read_bytes n (c ∷ cs) =
    let rest = read_bytes (n - length c) cs in
    if n == 0
    then some ([], c ∷ cs)
    else if leb (length c) n
    then after_chunk c rest
    else some (take n c, drop n c ∷ cs)

-- `bs` was read, and `more` is still to come.
abbrev pub Delivers : Option (List ℕ × Reader) → List ℕ → List ℕ → Type 0
Delivers none bs more = ⊥
Delivers (some (got, r)) bs more = (got ≡ bs) × (stream r ≡ more)

Delivers-after_chunk :
    (c bs more : List ℕ) (o : Option (List ℕ × Reader))
    → Delivers o bs more
    → Delivers (after_chunk c o) (c ++ bs) more
Delivers-after_chunk c bs more none d = d
Delivers-after_chunk c bs more (some (got, r)) (e, d) = (ap (λ t. c ++ t) e, d)

-- However the stream is cut into chunks, readBytes takes its first n bytes.
read_bytes-stream :
    (n : ℕ) (r : Reader)
    → n ≤ length (stream r)
    → Delivers (read_bytes n r) (take n (stream r)) (drop n (stream r))
unfolding read_bytes
read_bytes-stream zero [] h = (refl, refl)
read_bytes-stream (suc n) [] h = absurd (omega arith)
read_bytes-stream zero (c ∷ cs) h = (refl, refl)
read_bytes-stream (suc n) (c ∷ cs) h =
    rw (suc-==-zero n) (elim (Bool-cases (leb (length c) (suc n))) [
      | inl e ↦
          let le : length c ≤ suc n = leb→le (length c) (suc n) e in
          rw (e, take-append_ge (suc n) c (stream cs) le, drop-append_ge (suc n) c (stream cs) le)
            (Delivers-after_chunk c _ _ _ (
              read_bytes-stream (suc n - length c) cs (omega (arith, length-append c (stream cs)))))
      | inr e ↦
          let lt : suc n < length c = leb_false→lt (length c) (suc n) e in
          rw e (
            sym (take-append_le (suc n) c (stream cs) (omega arith)),
            sym (drop-append_le (suc n) c (stream cs) (omega arith)),
          )
    ])

-- And it fails when the stream ends before them.
pub read_bytes_short : (n : ℕ) (r : Reader) → length (stream r) < n → read_bytes n r ≡ none
unfolding read_bytes
read_bytes_short zero r h = absurd (omega arith)
read_bytes_short (suc n) [] h = rw (suc-==-zero n)
read_bytes_short (suc n) (c ∷ cs) h =
    let le : length c ≤ suc n = omega (arith, length-append c (stream cs)) in
    rw (read_bytes_short (suc n - length c) cs (omega (arith, length-append c (stream cs))))
      (ground arith)

exactly :
    (bs more : List ℕ) (o : Option (List ℕ × Reader))
    → Delivers o bs more
    → (r : Reader) × (o ≡ some (bs, r)) × (stream r ≡ more)
exactly bs more none d = absurd d
exactly bs more (some (got, r)) (e, d) = (r, ap (λ t. some (t, r)) e, d)

-- From a stream that begins with `bs`, readBytes reads `bs` and leaves what follows.
pub read_exact :
    (bs more : List ℕ) (r : Reader)
    → stream r ≡ bs ++ more
    → (r' : Reader) × (read_bytes (length bs) r ≡ some (bs, r')) × (stream r' ≡ more)
read_exact bs more r e = exactly bs more _ (
    subst₂ (λ t d. Delivers (read_bytes (length bs) r) t d)
      (ap (λ t. take (length bs) t) e ∙ take-append bs more)
      (ap (λ t. drop (length bs) t) e ∙ drop-append bs more)
      (read_bytes-stream (length bs) r (rw e (omega (arith, length-append bs more)))))
